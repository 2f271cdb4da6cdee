-- ===== src/Etims/Tax/Document/Sound.antt =====
-- What an accepted document of packages/etims/src/tax.ts satisfies.
use mathlib.Core.Path.{subst}
use z_float_2_main.Prelude.{ℕ, ◌+◌, ◌≤◌, ◌≡◌, sym, Bool, List, [], ◌∷◌, length, arith, ltb, ◌==◌}
use z_float_2_main.Prelude.Int.{ℤ, pos, ◌<ℤ◌, ◌+ℤ◌, leb_ℤ, int_laws}
use z_float_2_main.Etims.Tax.{
  computed, LineInput, ComputedLine, no_lines, too_many_lines, total_not_positive,
}
use z_float_2_main.Etims.Tax.Laws.{passed, went_on, computed-injective}
use z_float_2_main.Etims.Tax.Document.{
  Sums, no_sums, compute_lines, ComputedDocument, compute_document,
}
use z_float_2_main.Etims.Tax.Document.Totals.{
  AreLinesOf, compute_lines_lem, sum_by, IsTotalOf, add_lines-IsTotalOf,
}

-- The sums that a document carries.
abbrev pub sums_of : ComputedDocument → Sums
sums_of doc = record {
  tax_summary = doc.tax_summary;
  subtotal_minor = doc.subtotal_minor;
  tax_minor = doc.tax_minor;
  total_minor = doc.total_minor;
}

abbrev document_of : List ComputedLine × Sums → ComputedDocument
document_of r = record {
  lines = r.0;
  tax_summary = r.1.tax_summary;
  subtotal_minor = r.1.subtotal_minor;
  tax_minor = r.1.tax_minor;
  total_minor = r.1.total_minor;
}

IsSound : Bool → List LineInput → ComputedDocument → Type 0
IsSound incl inputs doc =
    (1 ≤ length inputs)
    × (length inputs ≤ 200)
    × (pos 0 <ℤ doc.total_minor)
    × AreLinesOf incl 0 inputs doc.lines
    × IsTotalOf doc.lines (sums_of doc)

compute_document-IsSound :
    (incl : Bool) (inputs : List LineInput) (doc : ComputedDocument)
    → compute_document incl inputs ≡ computed doc
    → IsSound incl inputs doc
unfolding compute_document IsSound
compute_document-IsSound incl inputs doc e =
    let (some_lines, e1) = passed (length inputs == 0) no_lines _ e in
    let (few_lines, e2) = passed (ltb 200 (length inputs)) too_many_lines _ e1 in
    let (r, ran, e3) = went_on (compute_lines incl 0 inputs no_sums) _ e2 in
    let (positive, e4) = passed (leb_ℤ r.1.total_minor (pos 0)) total_not_positive _ e3 in
    let same : document_of r ≡ doc = computed-injective e4 in
    let (lines, sums) = compute_lines_lem incl 0 inputs no_sums r ran in
    let totals : IsTotalOf r.0 r.1 = subst (IsTotalOf r.0) (sym sums) (add_lines-IsTotalOf r.0) in
    subst (IsSound incl inputs) same (ground arith, ground arith, ground arith, lines, totals)

total_of_parts : (a b c d e f : ℤ) → a ≡ b +ℤ c → d ≡ e +ℤ f → a +ℤ d ≡ b +ℤ e +ℤ (c +ℤ f)
total_of_parts a b c d e f h k = rw (h, k) (omega int_laws)

sums_agree :
    (incl : Bool) (i : ℕ) (ls : List LineInput) (cs : List ComputedLine)
    → AreLinesOf incl i ls cs
    → sum_by (λ c. c.total_minor) cs ≡ sum_by (λ c. c.net_minor) cs +ℤ sum_by (λ c. c.tax_minor) cs
sums_agree incl i [] [] h = omega int_laws
sums_agree incl i [] (c ∷ cs) h = absurd h
sums_agree incl i (l ∷ ls) [] h = absurd h
sums_agree incl i (l ∷ ls) (c ∷ cs) h =
    let (_, _, priced) = h.0 in
    let (_, _, _, total, _, _, _) = priced in
    total_of_parts c.total_minor c.net_minor c.tax_minor _ _ _ total
      (sums_agree incl (i + 1) ls cs h.1)

-- The totals of an accepted document are the sums of its lines, the bucket of each tax type has the
-- sums of the lines of that type, and subtotal and tax make the total.
pub compute_document-IsTotalOf :
    (incl : Bool) (inputs : List LineInput) (doc : ComputedDocument)
    → compute_document incl inputs ≡ computed doc
    → IsTotalOf doc.lines (sums_of doc) × (doc.total_minor ≡ doc.subtotal_minor +ℤ doc.tax_minor)
unfolding IsSound
compute_document-IsTotalOf incl inputs doc e =
    let (_, _, _, lines, sums) = compute_document-IsSound incl inputs doc e in
    let (total, tax, net, _, _) = sums in
    (sums, rw (total, tax, net) (sums_agree incl 0 inputs doc.lines lines))
