-- ===== src/Collections/Monitor.antt =====
-- packages/payments-core/src/monitor.ts: payments that wait for the answer of a provider.
pub mod Laws
use z_float_2_main.Prelude.{
  ℕ, ◌+◌, Bool, ◌&&◌, Option, none, some, List, [], ◌∷◌, length, keep, take,
}
use Prim.Native.String.{String}
use z_float_2_main.Exec.{Exec, Result, ok, err, pure, gets, attempt, transaction, ◌>>=◌, ◌>>◌}
use z_float_2_main.Payments.State.{reversed, provider_pending, same_state}
use z_float_2_main.Payments.Tables.{Payment, ProviderStatus}
use z_float_2_main.Payments.Store.{Store, in_payments, move, set_payment}
use z_float_2_main.Payments.Execute.{apply_provider_success, apply_provider_failure}

abbrev set_reversed : Payment → Payment
set_reversed p = record p { provider_status = some ProviderStatus.reversed }

-- The switch over the status that the provider gives.
unfoldable pub apply_status : ℕ → String → ProviderStatus → Exec Store (Unit {0})
apply_status id reference ProviderStatus.success = apply_provider_success id reference
apply_status id reference ProviderStatus.failed = apply_provider_failure id
apply_status id reference ProviderStatus.reversed = do
  in_payments (move id reversed none)
  in_payments (set_payment id set_reversed)
apply_status id reference ProviderStatus.pending = pure tt
apply_status id reference ProviderStatus.unknown = pure tt

-- Whether `updated += 1` was reached.
abbrev count : Result (Unit {0}) → ℕ
count (ok x) = 1
count (err c) = 0

abbrev pub is_stuck : (ℕ → Bool) → ℕ × Payment → Bool
is_stuck is_old (id, p) = same_state p.status provider_pending && is_old id

-- `provider` is `getPaymentStatus` of the adapter, of a reference and a payment; none where it
-- throws. `is_old` tells which rows were last written before the cutoff.
module _ (provider : String → ℕ → Option ProviderStatus) where
  unfoldable pub take_status : ℕ → String → Option ProviderStatus → Exec Store ℕ
  take_status id reference none = pure 0
  take_status id reference (some status) = do
    outcome ← attempt (transaction (apply_status id reference status))
    pure (count outcome)

  -- One round of the loop.
  unfoldable pub check_payment : ℕ → Option String → Exec Store ℕ
  check_payment id none = pure 0
  check_payment id (some reference) = take_status id reference (provider reference id)

  unfoldable pub check_payments : List (ℕ × Payment) → Exec Store ℕ
  check_payments [] = pure 0
  check_payments ((id, p) ∷ rows) = do
    n ← check_payment id p.provider_reference
    m ← check_payments rows
    pure (n + m)

  -- `monitorStuckPayments`: how many were checked, and how many updated.
  unfoldable pub monitor_stuck_payments : (ℕ → Bool) → ℕ → Exec Store (ℕ × ℕ)
  monitor_stuck_payments is_old limit = do
    stuck ← gets (λ s. take limit (keep (is_stuck is_old) s.payment.payments))
    updated ← check_payments stuck
    pure (length stuck, updated)
