-- ===== src/Collections/Monitor/Laws.antt =====
-- What a pass of the monitor does (packages/payments-core/src/monitor.ts).
use z_float_2_main.Prelude.{ℕ, ◌≡◌, refl, Option, none, some, Bool, List, [], ◌∷◌}
use z_float_2_main.Prelude.Int.{ℤ}
use Prim.Native.String.{String}
use z_float_2_main.Exec.{Exec, ok}
use z_float_2_main.Exec.Keeps.{
  Keeps, Keeps-bind, Keeps-then, Keeps-gets, Keeps-pure, Keeps-attempt, Keeps-transaction,
}
use z_float_2_main.Payments.Tables.{Payment, ProviderStatus}
use z_float_2_main.Payments.Store.{Store}
use z_float_2_main.Payments.Consistent.{IsConsistent, move-Keeps, set_payment-Keeps}
use z_float_2_main.Payments.Consistent.Outcomes.{
  apply_provider_success-Keeps, apply_provider_failure-Keeps,
}
use z_float_2_main.Collections.Monitor.{
  apply_status, take_status, check_payment, check_payments, monitor_stuck_payments,
}

module _ (opening : ℕ → ℤ) where
  apply_status-Keeps :
      (id : ℕ) (reference : String) (x : ProviderStatus)
      → Keeps (IsConsistent opening) (apply_status id reference x)
  unfolding apply_status
  apply_status-Keeps id reference ProviderStatus.success =
      apply_provider_success-Keeps opening id reference
  apply_status-Keeps id reference ProviderStatus.failed = apply_provider_failure-Keeps opening id
  apply_status-Keeps id reference ProviderStatus.reversed =
      Keeps-then _ _ (move-Keeps opening _ _ _) (set_payment-Keeps opening id _ λ p. refl)
  apply_status-Keeps id reference ProviderStatus.pending = Keeps-pure _
  apply_status-Keeps id reference ProviderStatus.unknown = Keeps-pure _

  module _ (provider : String → ℕ → Option ProviderStatus) where
    take_status-Keeps :
        (id : ℕ) (reference : String) (x : Option ProviderStatus)
        → Keeps (IsConsistent opening) (take_status provider id reference x)
    unfolding take_status
    take_status-Keeps id reference none = Keeps-pure _
    take_status-Keeps id reference (some x) =
        Keeps-bind _ _ (Keeps-attempt _ (Keeps-transaction _ (apply_status-Keeps id reference x)))
          λ outcome. Keeps-pure _

    check_payment-Keeps :
        (id : ℕ) (reference : Option String)
        → Keeps (IsConsistent opening) (check_payment provider id reference)
    unfolding check_payment
    check_payment-Keeps id none = Keeps-pure _
    check_payment-Keeps id (some reference) = take_status-Keeps id reference _

    check_payments-Keeps :
        (rows : List (ℕ × Payment)) → Keeps (IsConsistent opening) (check_payments provider rows)
    unfolding check_payments
    check_payments-Keeps [] = Keeps-pure _
    check_payments-Keeps ((id, p) ∷ rows) =
        Keeps-bind _ _ (check_payment-Keeps id _)
          λ n. Keeps-bind _ _ (check_payments-Keeps rows) λ m. Keeps-pure _

    pub monitor_stuck_payments-Keeps :
        (is_old : ℕ → Bool) (limit : ℕ)
        → Keeps (IsConsistent opening) (monitor_stuck_payments provider is_old limit)
    unfolding monitor_stuck_payments
    monitor_stuck_payments-Keeps is_old limit =
        Keeps-bind _ _ (Keeps-gets _)
          λ stuck. Keeps-bind _ _ (check_payments-Keeps stuck) λ n. Keeps-pure _

-- The command returns a value that satisfies `P`.
abbrev Returns : {S A : Type 0} → (A → Type 0) → Exec S A → S → Type 0
Returns {S} {A} P m s = (x : A) × (t : S) × (m s ≡ (ok x, t)) × P x

-- From a consistent database, a pass of the monitor leads to a consistent one.
pub monitor_stuck_payments-IsConsistent :
    (opening : ℕ → ℤ) (provider : String → ℕ → Option ProviderStatus) (is_old : ℕ → Bool)
    (limit : ℕ) (s : Store)
    → IsConsistent opening s
    → IsConsistent opening (monitor_stuck_payments provider is_old limit s).1
monitor_stuck_payments-IsConsistent opening provider is_old limit s h =
    (monitor_stuck_payments-Keeps opening provider is_old limit).at s h
