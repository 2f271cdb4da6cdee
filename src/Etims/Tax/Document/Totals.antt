-- ===== src/Etims/Tax/Document/Totals.antt =====
-- The lines and the sums of a document of packages/etims/src/tax.ts.
use mathlib.Core.Path.{subst}
use z_float_2_main.Prelude.{
  ℕ, inl, inr, Bool-cases, ◌+◌, ◌≡◌, refl, sym, ◌∙◌, Bool, true, false, List, [], ◌∷◌, arith,
  if◌then◌else◌,
}
use z_float_2_main.Prelude.Int.{ℤ, pos, ◌+ℤ◌, +ℤ-zero, +ℤ_assoc, int_laws}
use z_float_2_main.Etims.Tax.{
  TaxType, A, B, C, D, E, computed, LineInput, ComputedLine, compute_line,
}
use z_float_2_main.Etims.Tax.Laws.{IsLineOf, compute_line-IsLineOf, went_on, computed-injective}
use z_float_2_main.Etims.Tax.Document.{
  TaxBucket, TaxSummary, bucket, set_bucket, empty_bucket, empty_summary, Sums, no_sums,
  add_to_bucket, add_line, compute_lines,
}

-- `lines` are the lines of `inputs`, numbered from `i + 1` on.
abbrev pub AreLinesOf : Bool → ℕ → List LineInput → List ComputedLine → Type 0
AreLinesOf incl i [] [] = Unit
AreLinesOf incl i [] (c ∷ cs) = ⊥
AreLinesOf incl i (l ∷ ls) [] = ⊥
AreLinesOf incl i (l ∷ ls) (c ∷ cs) = IsLineOf incl i l c × AreLinesOf incl (i + 1) ls cs

abbrev pub add_lines : Sums → List ComputedLine → Sums
add_lines s [] = s
add_lines s (c ∷ cs) = add_lines (add_line c s) cs

pub compute_lines_lem :
    (incl : Bool) (i : ℕ) (ls : List LineInput) (s : Sums) (r : List ComputedLine × Sums)
    → compute_lines incl i ls s ≡ computed r
    → AreLinesOf incl i ls r.0 × (r.1 ≡ add_lines s r.0)
unfolding compute_lines
compute_lines_lem incl i [] s r e =
    subst (λ q. AreLinesOf incl i [] q.0 × (q.1 ≡ add_lines s q.0)) (computed-injective e)
      (tt, refl)
compute_lines_lem incl i (l ∷ ls) s r e =
    let (c, e1, e2) = went_on (compute_line incl i l) _ e in
    let (rest, e3, e4) = went_on (compute_lines incl (i + 1) ls (add_line c s)) _ e2 in
    let (lines, sums) = compute_lines_lem incl (i + 1) ls (add_line c s) rest e3 in
    subst (λ q. AreLinesOf incl i (l ∷ ls) q.0 × (q.1 ≡ add_lines s q.0)) (computed-injective e4)
      ((compute_line-IsLineOf incl i l c e1, lines), sums)

-- The sum of an amount over the lines.
abbrev pub sum_by : (ComputedLine → ℤ) → List ComputedLine → ℤ
sum_by f [] = pos 0
sum_by f (c ∷ cs) = f c +ℤ sum_by f cs

abbrev pub same_type : TaxType → TaxType → Bool
same_type A A = true
same_type B B = true
same_type C C = true
same_type D D = true
same_type E E = true
same_type _ _ = false

-- The amount, on the lines of one type.
abbrev pub in_type : TaxType → (ComputedLine → ℤ) → ComputedLine → ℤ
in_type t f c = if same_type c.tax_type t then f c else pos 0

-- An amount that each line adds to is, in the end, the sum over the lines.
add_lines-sum :
    (f : Sums → ℤ) (g : ComputedLine → ℤ)
    → ((c : ComputedLine) (s : Sums) → f (add_line c s) ≡ f s +ℤ g c)
    → (s : Sums) (cs : List ComputedLine) → f (add_lines s cs) ≡ f s +ℤ sum_by g cs
add_lines-sum f g step s [] = sym (+ℤ-zero (f s))
add_lines-sum f g step s (c ∷ cs) =
    add_lines-sum f g step (add_line c s) cs ∙ rw (step c s) (+ℤ_assoc (f s) (g c) (sum_by g cs))

bucket-set :
    (t u : TaxType) (x : TaxBucket) (s : TaxSummary)
    → bucket t (set_bucket u x s) ≡ (if same_type u t then x else bucket t s)
unfolding bucket set_bucket
bucket-set t u x s = ground arith

same_type-eq : (u t : TaxType) → same_type u t ≡ true → u ≡ t
same_type-eq u t h = ground arith

-- Adding to one bucket adds to the bucket of the type `t` the amount in that type.
bucket-add :
    (field : TaxBucket → ℤ) (a : ℤ) (u t : TaxType) (x : TaxBucket) (s : TaxSummary)
    → field x ≡ field (bucket u s) +ℤ a
    → field (bucket t (set_bucket u x s))
      ≡ field (bucket t s) +ℤ (if same_type u t then a else pos 0)
bucket-add field a u t x s e = elim (Bool-cases (same_type u t)) [
  | inl same ↦ rw (bucket-set t u x s, same) (e ∙ rw (same_type-eq u t same) refl)
  | inr other ↦ rw (bucket-set t u x s, other) (sym (+ℤ-zero (field (bucket t s))))
]

module _ (t : TaxType) (c : ComputedLine) (s : Sums) where
  bucket_taxable :
      (bucket t (add_line c s).tax_summary).taxable_minor
      ≡ (bucket t s.tax_summary).taxable_minor +ℤ in_type t (λ l. l.total_minor) c
  unfolding add_line add_to_bucket
  bucket_taxable = bucket-add (λ b. b.taxable_minor) c.total_minor c.tax_type t _ s.tax_summary refl

  bucket_tax :
      (bucket t (add_line c s).tax_summary).tax_minor
      ≡ (bucket t s.tax_summary).tax_minor +ℤ in_type t (λ l. l.tax_minor) c
  unfolding add_line add_to_bucket
  bucket_tax = bucket-add (λ b. b.tax_minor) c.tax_minor c.tax_type t _ s.tax_summary refl

-- The sums of the lines; the bucket of a type has those of the lines of the type.
abbrev pub IsTotalOf : List ComputedLine → Sums → Type 0
IsTotalOf cs s =
    (s.total_minor ≡ sum_by (λ c. c.total_minor) cs)
    × (s.tax_minor ≡ sum_by (λ c. c.tax_minor) cs)
    × (s.subtotal_minor ≡ sum_by (λ c. c.net_minor) cs)
    × ((t : TaxType)
        → (bucket t s.tax_summary).taxable_minor ≡ sum_by (in_type t (λ c. c.total_minor)) cs)
    × ((t : TaxType)
        → (bucket t s.tax_summary).tax_minor ≡ sum_by (in_type t (λ c. c.tax_minor)) cs)

zero-+ℤ : (a b : ℤ) → b ≡ pos 0 +ℤ a → b ≡ a
zero-+ℤ a b e = e ∙ omega int_laws

empty-bucket :
    (t : TaxType)
    → ((bucket t empty_summary).taxable_minor ≡ pos 0)
      × ((bucket t empty_summary).tax_minor ≡ pos 0)
unfolding bucket empty_summary empty_bucket
empty-bucket A = (refl, refl)
empty-bucket B = (refl, refl)
empty-bucket C = (refl, refl)
empty-bucket D = (refl, refl)
empty-bucket E = (refl, refl)

pub add_lines-IsTotalOf : (cs : List ComputedLine) → IsTotalOf cs (add_lines no_sums cs)
unfolding add_line no_sums
add_lines-IsTotalOf cs = (
  zero-+ℤ _ _ (add_lines-sum (λ s. s.total_minor) (λ c. c.total_minor) (λ c s. refl) no_sums cs),
  zero-+ℤ _ _ (add_lines-sum (λ s. s.tax_minor) (λ c. c.tax_minor) (λ c s. refl) no_sums cs),
  zero-+ℤ _ _ (add_lines-sum (λ s. s.subtotal_minor) (λ c. c.net_minor) (λ c s. refl) no_sums cs),
  (λ t. zero-+ℤ _ _ (
      add_lines-sum (λ s. (bucket t s.tax_summary).taxable_minor) (in_type t (λ c. c.total_minor))
        (bucket_taxable t) no_sums cs
      ∙ rw (empty-bucket t).0 refl)),
  (λ t. zero-+ℤ _ _ (
      add_lines-sum (λ s. (bucket t s.tax_summary).tax_minor) (in_type t (λ c. c.tax_minor))
        (bucket_tax t) no_sums cs
      ∙ rw (empty-bucket t).1 refl)),
)
