-- ===== src/Payments/Fees.antt =====
-- packages/payments-core/src/fees.ts, and the money it computes with (packages/money/src/money.ts).
pub mod Laws
use z_float_2_main.Prelude.{
  ℕ, Bool, true, false, ◌&&◌, ◌||◌, Option, none, some, List, [], ◌∷◌, leb, ◌==◌, if◌then◌else◌,
}
use z_float_2_main.Prelude.Int.{ℤ, pos, ◌+ℤ◌, ◌*ℤ◌, div_ℤ, ltb_ℤ}
use Prim.Native.String.{String}
use text.Mathlib.Text.{◌==◌ as str_eq}
use z_float_2_main.Exec.{Exec, pure, gets, modify, ◌>>=◌, ◌>>◌}
use z_float_2_main.Table.{find_where}
use z_float_2_main.Payments.Tables.{PaymentDb, FeeRule, FeeCalculation}

pub record FeeContext : Type 0 where
  pub tenant_id : ℕ
  pub product : String
  pub channel : String
  pub provider_code : String

pub record FeeResult : Type 0 where
  pub fee_minor : ℤ
  pub rule_id : Option ℕ

abbrev pub not_after : ℕ → Option ℕ → Bool
not_after now none = true
not_after now (some t) = leb t now

abbrev pub not_before : ℕ → Option ℕ → Bool
not_before now none = true
not_before now (some t) = leb now t

abbrev pub for_tenant : ℕ → Option ℕ → Bool
for_tenant tenant none = true
for_tenant tenant (some t) = t == tenant

-- The WHERE clause of `findFeeRule`, at the time `now`.
unfoldable pub fee_rule_applies : ℕ → FeeContext → FeeRule → Bool
fee_rule_applies now ctx rule =
    str_eq rule.product ctx.product
    && str_eq rule.channel ctx.channel
    && str_eq rule.provider ctx.provider_code
    && rule.is_active
    && not_after now rule.effective_from
    && not_before now rule.effective_to
    && for_tenant ctx.tenant_id rule.tenant_id

-- `Money.percentFloor`
unfoldable pub percent_floor : ℤ → ℤ → ℤ
percent_floor amount bps = div_ℤ (amount *ℤ bps) 10000

abbrev raise_to : ℤ → ℤ → ℤ
raise_to least fee = if ltb_ℤ (pos 0) least && ltb_ℤ fee least then least else fee

abbrev lower_to : ℤ → ℤ → ℤ
lower_to most fee = if ltb_ℤ (pos 0) most && ltb_ℤ most fee then most else fee

-- The fee that a rule asks for an amount.
unfoldable pub rule_fee : FeeRule → ℤ → ℤ
rule_fee rule amount =
    lower_to rule.max_fee_minor
      (raise_to rule.min_fee_minor (rule.flat_fee_minor +ℤ percent_floor amount rule.percent_bps))

abbrev fee_by : ℤ → Option (ℕ × FeeRule) → FeeResult
fee_by amount none = record { fee_minor = pos 0; rule_id = none }
fee_by amount (some (id, rule)) = record { fee_minor = rule_fee rule amount; rule_id = some id }

-- `computeFee`
unfoldable pub compute_fee : ℕ → ℤ → FeeContext → Exec PaymentDb FeeResult
compute_fee now amount ctx = do
  rule ← gets (λ s. find_where (fee_rule_applies now ctx) s.fee_rules)
  pure (fee_by amount rule)

abbrev pub calculation_of : ℕ → ℕ → ℤ → FeeResult → FeeCalculation
calculation_of tenant payment amount fee = record {
  tenant_id = tenant;
  payment_id = payment;
  rule_id = fee.rule_id;
  amount_minor = amount;
  fee_minor = fee.fee_minor;
}

-- `recordFeeCalculation`
unfoldable pub record_fee_calculation : ℕ → ℕ → ℤ → FeeResult → Exec PaymentDb (Unit {0})
record_fee_calculation tenant payment amount fee = modify (λ s. record s {
  fee_calculations = calculation_of tenant payment amount fee ∷ s.fee_calculations;
})
