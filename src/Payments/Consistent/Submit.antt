-- ===== src/Payments/Consistent/Submit.antt =====
-- The invariant of the database under the submission, approval and cancellation of
-- packages/payments-core/src/payments.ts.
use z_float_2_main.Prelude.{ℕ, refl, Bool, Option, none, some, List}
use z_float_2_main.Prelude.Int.{ℤ}
use Prim.Native.String.{String}
use z_float_2_main.Exec.{Result, ok, err, insufficient_funds}
use z_float_2_main.Exec.Keeps.{
  Keeps, Keeps-bind, Keeps-then, Keeps-gets, Keeps-guard, Keeps-if, Keeps-pure, Keeps-or_raise,
  Keeps-attempt, Keeps-transaction, keeps_rules,
}
use z_float_2_main.Ledger.Healthy.{reserve_funds-Keeps}
use z_float_2_main.Ledger.Reservation.{Reserved}
use z_float_2_main.Approvals.Policy.{ApprovalRule, ApprovalContext}
use z_float_2_main.Approvals.Service.Laws.{create_approval_request-HasFourEyes}
use z_float_2_main.Payments.Submit.{
  assert_payee_approved, load_payment, after_reserve, queue_payment, PaymentInput, ask_approval,
  queue_now, route, submit_payment, approve_queued_payment, cancel_payment,
}
use z_float_2_main.Payments.Trace.{IsTraced, set_payment-IsTraced}
use z_float_2_main.Payments.Consistent.{
  IsConsistent, in_payments-Keeps, in_ledger-Keeps, in_approvals-Keeps, move-Keeps,
  set_payment-Keeps, enqueue_outbox-Keeps, step_rules,
}

assert_payee_approved-IsTraced :
    (tenant : ℕ) (id : Option ℕ) → Keeps IsTraced (assert_payee_approved tenant id)
unfolding assert_payee_approved
assert_payee_approved-IsTraced tenant none = search keeps_rules
assert_payee_approved-IsTraced tenant (some id) = search keeps_rules

module _ (opening : ℕ → ℤ) where
  pub load_payment-Keeps : (tenant id : ℕ) → Keeps (IsConsistent opening) (load_payment tenant id)
  unfolding load_payment
  load_payment-Keeps tenant id = search keeps_rules

  after_reserve-Keeps :
      (id actor tenant : ℕ) (r : Result Reserved)
      → Keeps (IsConsistent opening) (after_reserve id actor tenant r)
  unfolding after_reserve
  after_reserve-Keeps id actor tenant (ok _) = search (keeps_rules, step_rules)
  after_reserve-Keeps id actor tenant (err insufficient_funds) = search (keeps_rules, step_rules)
  after_reserve-Keeps id actor tenant (err c) = search keeps_rules

  queue_payment-Keeps :
      (id actor tenant : ℕ) → Keeps (IsConsistent opening) (queue_payment id actor tenant)
  unfolding queue_payment
  queue_payment-Keeps id actor tenant = Keeps-bind _ _ (Keeps-gets _) λ found.
      Keeps-bind _ _ (Keeps-or_raise _ _) λ p. Keeps-bind _ _ (Keeps-or_raise _ _) λ wallet.
        Keeps-bind _ _ (Keeps-attempt _ (in_ledger-Keeps opening _ (reserve_funds-Keeps opening _)))
          λ r. after_reserve-Keeps id actor tenant r

  ask_approval-Keeps :
      (i : PaymentInput) (rules : List ApprovalRule) (ctx : ApprovalContext)
      → Keeps (IsConsistent opening) (ask_approval i rules ctx)
  unfolding ask_approval
  ask_approval-Keeps i rules ctx =
      Keeps-bind _ _ (in_approvals-Keeps opening _ (create_approval_request-HasFourEyes _)) λ id.
        Keeps-then _ _ (move-Keeps opening _ _ _) (
          Keeps-then _ _ (set_payment-Keeps opening _ _ λ p. refl)
            (search (keeps_rules, step_rules)))

  queue_now-Keeps : (i : PaymentInput) → Keeps (IsConsistent opening) (queue_now i)
  unfolding queue_now
  queue_now-Keeps i = search (keeps_rules, queue_payment-Keeps)

  route-Keeps :
      (i : PaymentInput) (rules : List ApprovalRule) (ctx : ApprovalContext)
      → Keeps (IsConsistent opening) (route i rules ctx)
  unfolding route
  route-Keeps i rules ctx = Keeps-if _ _ _ (queue_now-Keeps i) (ask_approval-Keeps i rules ctx)

  -- Submitting a payment keeps the database consistent, on every branch, errors included.
  pub submit_payment-Keeps :
      (screen : ℕ → String → Bool) (rules : List ApprovalRule) (i : PaymentInput)
      → Keeps (IsConsistent opening) (submit_payment screen rules i)
  unfolding submit_payment
  submit_payment-Keeps screen rules i = Keeps-transaction _ (
      Keeps-bind _ _ (load_payment-Keeps i.tenant_id i.payment_id) λ p. Keeps-guard _ _ _ (
        Keeps-then _ _ (Keeps-or_raise _ _) (
          Keeps-then _ _
            (in_payments-Keeps opening _
              (assert_payee_approved-IsTraced i.tenant_id p.beneficiary_id))
            (Keeps-then _ _ (move-Keeps opening _ _ _) (
              Keeps-then _ _
                (in_payments-Keeps opening _
                  (Keeps-if _ _ _ (set_payment-IsTraced i.payment_id _ λ q. refl) (Keeps-pure _)))
                (route-Keeps i _ _))))))

  -- So does queueing an approved payment.
  pub approve_queued_payment-Keeps :
      (i : PaymentInput) → Keeps (IsConsistent opening) (approve_queued_payment i)
  unfolding approve_queued_payment
  approve_queued_payment-Keeps i = Keeps-transaction _ (
      Keeps-bind _ _ (load_payment-Keeps i.tenant_id i.payment_id) λ p. Keeps-guard _ _ _ (
        Keeps-then _ _ (move-Keeps opening _ _ _)
          (Keeps-then _ _ (set_payment-Keeps opening _ _ λ p. refl) (queue_payment-Keeps _ _ _))))

  -- So does cancelling a payment.
  pub cancel_payment-Keeps : (i : PaymentInput) → Keeps (IsConsistent opening) (cancel_payment i)
  unfolding cancel_payment
  cancel_payment-Keeps i = Keeps-transaction _ (
      Keeps-bind _ _ (load_payment-Keeps i.tenant_id i.payment_id) λ p. Keeps-guard _ _ _ (
        Keeps-then _ _ (move-Keeps opening _ _ _)
          (Keeps-then _ _ (enqueue_outbox-Keeps opening _ _ _) (Keeps-pure _))))
