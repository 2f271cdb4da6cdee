-- ===== src/Payments/Reachable.antt =====
-- Any sequence of commands of packages/payments-core and packages/approvals.
pub mod Claims
use z_float_2_main.Prelude.{ℕ, Option, List, Bool}
use z_float_2_main.Prelude.Int.{ℤ}
use Prim.Native.String.{String}
use z_float_2_main.Exec.Keeps.{Keeps}
use z_float_2_main.Approvals.Policy.{ApprovalRule}
use z_float_2_main.Approvals.Service.{
  ApprovalActionInput, record_approval_action, expire_due_approvals,
}
use z_float_2_main.Approvals.Service.Laws.{
  record_approval_action-HasFourEyes, expire_due_approvals-HasFourEyes,
}
use z_float_2_main.Payments.Tables.{Payment, ProviderStatus}
use z_float_2_main.Payments.Store.{Store, in_approvals}
use z_float_2_main.Payments.Commands.{CreatePaymentInput, create_payment}
use z_float_2_main.Payments.Submit.{
  PaymentInput, submit_payment, approve_queued_payment, cancel_payment,
}
use z_float_2_main.Payments.Execute.{
  ProviderPaymentResult, execute_payment, apply_provider_success, apply_provider_failure,
}
use z_float_2_main.Payments.Reversal.{
  request_reversal_approval, request_reversal, execute_approved_reversal,
}
use z_float_2_main.Payments.Funding.{FundWalletInput, fund_wallet}
use z_float_2_main.Payments.Consistent.{IsConsistent, in_approvals-Keeps}
use z_float_2_main.Payments.Consistent.Submit.{
  submit_payment-Keeps, approve_queued_payment-Keeps, cancel_payment-Keeps,
}
use z_float_2_main.Payments.Consistent.Outcomes.{
  execute_payment-Keeps, apply_provider_success-Keeps, apply_provider_failure-Keeps,
  request_reversal_approval-Keeps, request_reversal-Keeps, execute_approved_reversal-Keeps,
}
use z_float_2_main.Payments.Consistent.Deposits.{create_payment-Keeps, fund_wallet-Keeps}

-- One command, with its input and what the outside answers: the clock, the number that is drawn,
-- the policy, the watchlist and the provider. It may return or throw.
pub data Step : Store → Store → Type 0 where
  create :
      {s : Store} (now : ℕ) (number : String) (i : CreatePaymentInput)
      → Step s (create_payment now number i s).1
  submit :
      {s : Store} (screen : ℕ → String → Bool) (rules : List ApprovalRule) (i : PaymentInput)
      → Step s (submit_payment screen rules i s).1
  approve_queued : {s : Store} (i : PaymentInput) → Step s (approve_queued_payment i s).1
  cancel : {s : Store} (i : PaymentInput) → Step s (cancel_payment i s).1
  fund : {s : Store} (i : FundWalletInput) → Step s (fund_wallet i s).1
  execute :
      {s : Store} (provider : Payment → Option ProviderPaymentResult) (tenant id number : ℕ)
      → Step s (execute_payment provider tenant id number s).1
  succeed :
      {s : Store} (id : ℕ) (reference : String) → Step s (apply_provider_success id reference s).1
  fail : {s : Store} (id : ℕ) → Step s (apply_provider_failure id s).1
  ask_reversal : {s : Store} (i : PaymentInput) → Step s (request_reversal_approval i s).1
  reverse :
      {s : Store} (provider : String → ℤ → Option ProviderStatus) (i : PaymentInput)
      → Step s (request_reversal provider i s).1
  reverse_approved :
      {s : Store} (provider : String → ℤ → Option ProviderStatus) (i : PaymentInput)
      → Step s (execute_approved_reversal provider i s).1
  act : {s : Store} (i : ApprovalActionInput) → Step s (in_approvals (record_approval_action i) s).1
  expire : {s : Store} (now : ℕ) → Step s (in_approvals (expire_due_approvals now) s).1

pub data Steps : Store → Store → Type 0 where
  done : {s : Store} → Steps s s
  then : {s t u : Store} → Steps s t → Step t u → Steps s u

module _ (opening : ℕ → ℤ) where
  action-Keeps :
      (i : ApprovalActionInput)
      → Keeps (IsConsistent opening) (in_approvals (record_approval_action i))
  action-Keeps i =
      in_approvals-Keeps opening _ (record { at = record_approval_action-HasFourEyes i })

  Step-IsConsistent : {s t : Store} → Step s t → IsConsistent opening s → IsConsistent opening t
  Step-IsConsistent (create now number i) h = (create_payment-Keeps opening now number i).at _ h
  Step-IsConsistent (submit screen rules i) h = (submit_payment-Keeps opening screen rules i).at _ h
  Step-IsConsistent (approve_queued i) h = (approve_queued_payment-Keeps opening i).at _ h
  Step-IsConsistent (cancel i) h = (cancel_payment-Keeps opening i).at _ h
  Step-IsConsistent (fund i) h = (fund_wallet-Keeps opening i).at _ h
  Step-IsConsistent (execute provider tenant id number) h =
      (execute_payment-Keeps opening provider tenant id number).at _ h
  Step-IsConsistent (succeed id reference) h =
      (apply_provider_success-Keeps opening id reference).at _ h
  Step-IsConsistent (fail id) h = (apply_provider_failure-Keeps opening id).at _ h
  Step-IsConsistent (ask_reversal i) h = (request_reversal_approval-Keeps opening i).at _ h
  Step-IsConsistent (reverse provider i) h = (request_reversal-Keeps opening provider i).at _ h
  Step-IsConsistent (reverse_approved provider i) h =
      (execute_approved_reversal-Keeps opening provider i).at _ h
  Step-IsConsistent (act i) h = (action-Keeps i).at _ h
  Step-IsConsistent (expire now) h =
      (in_approvals-Keeps opening _ (expire_due_approvals-HasFourEyes now)).at _ h

-- From a consistent database, any sequence of commands, each of which may return or throw, with
-- whatever the providers answer, leads to a consistent database: every payment has a history of
-- legal moves from a draft to its status; the balances of every wallet are what the replay of its
-- ledger gives, and its reserved balance is the sum of its held reservations; every journal
-- balances; and nobody has acted twice on an approval request, or on a request of their own.
pub Steps-IsConsistent :
    (opening : ℕ → ℤ) {s t : Store} → Steps s t → IsConsistent opening s → IsConsistent opening t
Steps-IsConsistent opening done h = h
Steps-IsConsistent opening (then steps step) h =
    Step-IsConsistent opening step (Steps-IsConsistent opening steps h)
