-- ===== src/Etims/Tax/Document.antt =====
-- packages/etims/src/tax.ts: `computeDocument`, the lines of a document and their sums.
pub mod Totals
pub mod Sound
use z_float_2_main.Prelude.{ℕ, ◌+◌, Bool, List, [], ◌∷◌, length, ltb, ◌==◌}
use z_float_2_main.Prelude.Int.{ℤ, pos, ◌+ℤ◌, leb_ℤ}
use z_float_2_main.Etims.Tax.{
  TaxType, A, B, C, D, E, tax_rate, TaxError, no_lines, too_many_lines, total_not_positive, Checked,
  computed, refused, refuse_if, ◌>>=◌, ◌>>◌, LineInput, ComputedLine, compute_line,
}

pub record TaxBucket : Type 0 where
  pub rate : ℕ
  pub taxable_minor : ℤ
  pub tax_minor : ℤ

-- `Record<TaxType, TaxBucket>`
pub record TaxSummary : Type 0 where
  pub a : TaxBucket
  pub b : TaxBucket
  pub c : TaxBucket
  pub d : TaxBucket
  pub e : TaxBucket

unfoldable pub bucket : TaxType → TaxSummary → TaxBucket
bucket A s = s.a
bucket B s = s.b
bucket C s = s.c
bucket D s = s.d
bucket E s = s.e

unfoldable pub set_bucket : TaxType → TaxBucket → TaxSummary → TaxSummary
set_bucket A x s = record s { a = x }
set_bucket B x s = record s { b = x }
set_bucket C x s = record s { c = x }
set_bucket D x s = record s { d = x }
set_bucket E x s = record s { e = x }

unfoldable pub empty_bucket : TaxType → TaxBucket
empty_bucket t = record { rate = tax_rate t; taxable_minor = pos 0; tax_minor = pos 0 }

unfoldable pub empty_summary : TaxSummary
empty_summary = record {
  a = empty_bucket A;
  b = empty_bucket B;
  c = empty_bucket C;
  d = empty_bucket D;
  e = empty_bucket E;
}

-- The variables that the loop over the lines adds to.
pub record Sums : Type 0 where
  pub tax_summary : TaxSummary
  pub subtotal_minor : ℤ
  pub tax_minor : ℤ
  pub total_minor : ℤ

unfoldable pub no_sums : Sums
no_sums = record {
  tax_summary = empty_summary;
  subtotal_minor = pos 0;
  tax_minor = pos 0;
  total_minor = pos 0;
}

unfoldable pub add_to_bucket : ComputedLine → TaxBucket → TaxBucket
add_to_bucket l x = record x {
  taxable_minor = x.taxable_minor +ℤ l.total_minor;
  tax_minor = x.tax_minor +ℤ l.tax_minor;
}

unfoldable pub add_line : ComputedLine → Sums → Sums
add_line l s = record {
  tax_summary =
      set_bucket l.tax_type (add_to_bucket l (bucket l.tax_type s.tax_summary)) s.tax_summary;
  subtotal_minor = s.subtotal_minor +ℤ l.net_minor;
  tax_minor = s.tax_minor +ℤ l.tax_minor;
  total_minor = s.total_minor +ℤ l.total_minor;
}

-- `inputs.map(…)`, from the line with index `i` on: the lines, and the sums after them.
unfoldable pub compute_lines : Bool → ℕ → List LineInput → Sums → Checked (List ComputedLine × Sums)
compute_lines prices_include_tax i [] s = computed ([], s)
compute_lines prices_include_tax i (l ∷ ls) s = do
  line ← compute_line prices_include_tax i l
  (lines, t) ← compute_lines prices_include_tax (i + 1) ls (add_line line s)
  computed (line ∷ lines, t)

pub record ComputedDocument : Type 0 where
  pub lines : List ComputedLine
  pub tax_summary : TaxSummary
  pub subtotal_minor : ℤ
  pub tax_minor : ℤ
  pub total_minor : ℤ

-- `computeDocument`
unfoldable pub compute_document : Bool → List LineInput → Checked ComputedDocument
compute_document prices_include_tax inputs = do
  refuse_if (length inputs == 0) no_lines
  refuse_if (ltb 200 (length inputs)) too_many_lines
  (lines, s) ← compute_lines prices_include_tax 0 inputs no_sums
  refuse_if (leb_ℤ s.total_minor (pos 0)) total_not_positive
  computed (record {
    lines = lines;
    tax_summary = s.tax_summary;
    subtotal_minor = s.subtotal_minor;
    tax_minor = s.tax_minor;
    total_minor = s.total_minor;
  })
