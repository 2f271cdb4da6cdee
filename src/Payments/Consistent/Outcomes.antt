-- ===== src/Payments/Consistent/Outcomes.antt =====
-- The invariant of the database under the commands of packages/payments-core/src/execute.ts and
-- reversal.ts.
use z_float_2_main.Prelude.{ℕ, refl, Option, none, some}
use z_float_2_main.Prelude.Int.{ℤ}
use Prim.Native.String.{String}
use z_float_2_main.Exec.Keeps.{
  Keeps, Keeps-modify, Keeps-bind, Keeps-then, Keeps-gets, Keeps-guard, Keeps-if, Keeps-pure,
  Keeps-or_raise, Keeps-transaction, keeps_rules,
}
use z_float_2_main.Ledger.Tables.{WalletReservation}
use z_float_2_main.Ledger.Healthy.{
  IsHealthy, IsHealthy-IsPostable, release_reservation-Keeps, apply_reservation-Keeps,
}
use z_float_2_main.Ledger.Postings.{post_payment_success_journal-Keeps, post_reversal_journal-Keeps}
use z_float_2_main.Approvals.Service.Laws.{create_approval_request-HasFourEyes}
use z_float_2_main.Payments.Tables.{Payment, PaymentAttempt, ProviderStatus, Reversal}
use z_float_2_main.Payments.Execute.{
  record_attempt, reservation_for, apply_if_held, release_if_held, settle, apply_provider_success,
  fail, apply_provider_failure, ProviderPaymentResult, follow, take_answer, run_payment,
  execute_payment,
}
use z_float_2_main.Payments.Reversal.{
  load_reversible_payment, request_reversal_approval, insert_reversal, reverse_now, await_reversal,
  run_reversal, request_reversal, execute_approved_reversal,
}
use z_float_2_main.Payments.Submit.{PaymentInput}
use z_float_2_main.Payments.Trace.{IsTraced}
use z_float_2_main.Payments.Consistent.{
  IsConsistent, in_payments-Keeps, in_ledger-Keeps, in_approvals-Keeps, move-Keeps,
  set_payment-Keeps, step_rules,
}
use z_float_2_main.Payments.Consistent.Submit.{load_payment-Keeps}

record_attempt-IsTraced : (a : PaymentAttempt) → Keeps IsTraced (record_attempt a)
unfolding record_attempt
record_attempt-IsTraced a =
    Keeps-modify _ λ s h. record { trail = h.trail; current = h.current; recorded = h.recorded }

insert_reversal-IsTraced : (r : Reversal) → Keeps IsTraced (insert_reversal r)
unfolding insert_reversal
insert_reversal-IsTraced r =
    Keeps-modify _ λ s h. record { trail = h.trail; current = h.current; recorded = h.recorded }

module _ (opening : ℕ → ℤ) where
  apply_if_held-IsHealthy :
      (r : Option (ℕ × WalletReservation)) → Keeps (IsHealthy opening) (apply_if_held r)
  unfolding apply_if_held
  apply_if_held-IsHealthy none = Keeps-pure _
  apply_if_held-IsHealthy (some (id, r)) =
      Keeps-if _ _ _ (apply_reservation-Keeps opening id) (Keeps-pure _)

  release_if_held-IsHealthy :
      (r : Option (ℕ × WalletReservation)) → Keeps (IsHealthy opening) (release_if_held r)
  unfolding release_if_held
  release_if_held-IsHealthy none = Keeps-pure _
  release_if_held-IsHealthy (some (id, r)) =
      Keeps-if _ _ _ (release_reservation-Keeps opening id) (Keeps-pure _)

  settle-Keeps :
      (id : ℕ) (reference : String) (p : Payment)
      → Keeps (IsConsistent opening) (settle id reference p)
  unfolding settle reservation_for
  settle-Keeps id reference p = Keeps-guard _ _ _ (
      Keeps-bind _ _ (Keeps-gets _) λ r.
        Keeps-then _ _ (in_ledger-Keeps opening _ (apply_if_held-IsHealthy r)) (
          Keeps-then _ _ (move-Keeps opening _ _ _) (
            Keeps-then _ _ (set_payment-Keeps opening _ _ λ q. refl) (
              Keeps-then _ _
                (in_ledger-Keeps opening _
                  (post_payment_success_journal-Keeps (IsHealthy-IsPostable opening) _))
                (search (keeps_rules, step_rules))))))

  -- A verified success keeps the database consistent, a duplicate included.
  pub apply_provider_success-Keeps :
      (id : ℕ) (reference : String)
      → Keeps (IsConsistent opening) (apply_provider_success id reference)
  unfolding apply_provider_success
  apply_provider_success-Keeps id reference = Keeps-bind _ _ (Keeps-gets _) λ found.
      Keeps-bind _ _ (Keeps-or_raise _ _)
        λ p. Keeps-if _ _ _ (Keeps-pure _) (settle-Keeps id reference p)

  fail-Keeps : (id : ℕ) (p : Payment) → Keeps (IsConsistent opening) (fail id p)
  unfolding fail reservation_for
  fail-Keeps id p = Keeps-bind _ _ (Keeps-gets _) λ r.
      Keeps-then _ _ (in_ledger-Keeps opening _ (release_if_held-IsHealthy r)) (
        Keeps-then _ _ (move-Keeps opening _ _ _) (
          Keeps-then _ _ (set_payment-Keeps opening _ _ λ q. refl)
            (search (keeps_rules, step_rules))))

  -- So does a verified failure.
  pub apply_provider_failure-Keeps :
      (id : ℕ) → Keeps (IsConsistent opening) (apply_provider_failure id)
  unfolding apply_provider_failure
  apply_provider_failure-Keeps id = Keeps-bind _ _ (Keeps-gets _) λ found.
      Keeps-bind _ _ (Keeps-or_raise _ _) λ p. Keeps-if _ _ _ (Keeps-pure _) (fail-Keeps id p)

  follow-Keeps :
      (id : ℕ) (reference : String) (status : ProviderStatus)
      → Keeps (IsConsistent opening) (follow id reference status)
  unfolding follow
  follow-Keeps id reference ProviderStatus.success = apply_provider_success-Keeps id reference
  follow-Keeps id reference ProviderStatus.failed = apply_provider_failure-Keeps id
  follow-Keeps id reference ProviderStatus.reversed = move-Keeps opening _ _ _
  follow-Keeps id reference ProviderStatus.pending = move-Keeps opening _ _ _
  follow-Keeps id reference ProviderStatus.unknown = move-Keeps opening _ _ _

  take_answer-Keeps :
      (id number : ℕ) (reference : String) (answer : Option ProviderPaymentResult)
      → Keeps (IsConsistent opening) (take_answer id number reference answer)
  unfolding take_answer
  take_answer-Keeps id number reference none =
      Keeps-then _ _ (in_payments-Keeps opening _ (record_attempt-IsTraced _))
        (move-Keeps opening _ _ _)
  take_answer-Keeps id number reference (some r) =
      Keeps-then _ _ (in_payments-Keeps opening _ (record_attempt-IsTraced _)) (follow-Keeps _ _ _)

  -- Executing a payment keeps the database consistent, whatever the provider answers, or throws.
  pub execute_payment-Keeps :
      (provider : Payment → Option ProviderPaymentResult) (tenant id number : ℕ)
      → Keeps (IsConsistent opening) (execute_payment provider tenant id number)
  unfolding execute_payment run_payment
  execute_payment-Keeps provider tenant id number = Keeps-transaction _ (
      Keeps-bind _ _ (load_payment-Keeps opening tenant id) λ p.
        Keeps-if _ _ _ (Keeps-then _ _ (move-Keeps opening _ _ _) (take_answer-Keeps _ _ _ _))
          (Keeps-pure _))

  load_reversible_payment-Keeps :
      (tenant id : ℕ) → Keeps (IsConsistent opening) (load_reversible_payment tenant id)
  unfolding load_reversible_payment
  load_reversible_payment-Keeps tenant id =
      Keeps-bind _ _ (load_payment-Keeps opening tenant id)
        λ p. Keeps-guard _ _ _ (Keeps-bind _ _ (Keeps-or_raise _ _) λ r. Keeps-pure _)

  -- Asking for the approval of a reversal keeps the database consistent.
  pub request_reversal_approval-Keeps :
      (i : PaymentInput) → Keeps (IsConsistent opening) (request_reversal_approval i)
  unfolding request_reversal_approval
  request_reversal_approval-Keeps i = Keeps-transaction _ (
      Keeps-bind _ _ (load_reversible_payment-Keeps _ _)
        λ found. in_approvals-Keeps opening _ (create_approval_request-HasFourEyes _))

  reverse_now-Keeps :
      (i : PaymentInput) (p : Payment) → Keeps (IsConsistent opening) (reverse_now i p)
  unfolding reverse_now
  reverse_now-Keeps i p = Keeps-then _ _ (move-Keeps opening _ _ _) (
      Keeps-then _ _ (set_payment-Keeps opening _ _ λ q. refl) (
        Keeps-then _ _
          (in_ledger-Keeps opening _ (post_reversal_journal-Keeps (IsHealthy-IsPostable opening) _))
          (search (keeps_rules, step_rules))))

  await_reversal-Keeps : (i : PaymentInput) → Keeps (IsConsistent opening) (await_reversal i)
  unfolding await_reversal
  await_reversal-Keeps i = search (keeps_rules, step_rules)

  module _ (provider : String → ℤ → Option ProviderStatus) where
    -- So does reversing a payment, whatever the provider answers, or throws.
    pub request_reversal-Keeps :
        (i : PaymentInput) → Keeps (IsConsistent opening) (request_reversal provider i)
    unfolding request_reversal run_reversal
    request_reversal-Keeps i = Keeps-transaction _ (
        Keeps-bind _ _ (load_reversible_payment-Keeps _ _) λ found.
          Keeps-bind _ _ (Keeps-gets _) λ settled. Keeps-if _ _ _ (Keeps-pure _) (
            Keeps-bind _ _ (Keeps-or_raise _ _) λ status.
              Keeps-then _ _ (in_payments-Keeps opening _ (insert_reversal-IsTraced _))
                (Keeps-if _ _ _ (reverse_now-Keeps i _) (await_reversal-Keeps i))))

    -- So does executing an approved reversal.
    pub execute_approved_reversal-Keeps :
        (i : PaymentInput) → Keeps (IsConsistent opening) (execute_approved_reversal provider i)
    unfolding execute_approved_reversal
    execute_approved_reversal-Keeps i =
        Keeps-bind _ _ (load_payment-Keeps opening _ _)
          λ p. Keeps-if _ _ _ (Keeps-pure _) (request_reversal-Keeps i)
