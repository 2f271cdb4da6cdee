-- ===== src/Payments/Reversal.antt =====
-- packages/payments-core/src/reversal.ts: reversing payments, under maker and checker.
use z_float_2_main.Prelude.{
  ℕ, Bool, true, false, not, ◌||◌, Option, none, some, List, [], ◌∷◌, ◌==◌, if◌then◌else◌,
}
use z_float_2_main.Prelude.Int.{ℤ, pos}
use Prim.Native.String.{String}
use z_float_2_main.Exec.{
  Exec, pure, gets, transaction, modify, raise_if, or_raise, ◌>>=◌, ◌>>◌, invalid_state,
  no_provider_ref, provider_error,
}
use z_float_2_main.Ledger.Journal.{post_reversal_journal}
use z_float_2_main.Approvals.Policy.{ApprovalRule, any_of}
use z_float_2_main.Approvals.Service.{create_approval_request, Resource}
use z_float_2_main.Payments.State.{PaymentState, provider_pending, success, reversed, same_state}
use z_float_2_main.Payments.Tables.{
  PaymentDb, Payment, EventType, ProviderStatus, Reversal, ReversalStatus, requested, processed,
}
use z_float_2_main.Payments.Store.{
  Store, in_payments, in_ledger, in_approvals, move, enqueue_outbox, set_payment,
}
use z_float_2_main.Payments.Submit.{PaymentInput, load_payment}

abbrev pub can_reverse : PaymentState → Bool
can_reverse s = same_state s success || same_state s provider_pending

-- `loadReversiblePayment`, and the provider's reference of the payment.
unfoldable pub load_reversible_payment : ℕ → ℕ → Exec Store (Payment × String)
load_reversible_payment tenant id = do
  p ← load_payment tenant id
  raise_if (not (can_reverse p.status)) invalid_state
  reference ← or_raise no_provider_ref p.provider_reference
  pure (p, reference)

-- `REVERSAL_APPROVER_ROLES`
abbrev reversal_approver_roles : List String
reversal_approver_roles = "APPROVER" ∷ "FINANCE_MANAGER" ∷ "OWNER" ∷ []

abbrev pub reversal_rule : ApprovalRule
reversal_rule = record {
  min_amount_minor = none;
  max_amount_minor = none;
  products = [];
  channels = [];
  branch_ids = [];
  department_ids = [];
  risk_flags = [];
  mode = any_of;
  required_roles = reversal_approver_roles;
  min_approvers = 1;
  order = 0;
}

-- `requestReversalApproval`: the approval request.
unfoldable pub request_reversal_approval : PaymentInput → Exec Store ℕ
request_reversal_approval i = transaction (do
  (p, _) ← load_reversible_payment i.tenant_id i.payment_id
  in_approvals (
      create_approval_request (record {
        tenant_id = i.tenant_id;
        payment_id = none;
        resource_type = some Resource.reversal;
        resource_id = some i.payment_id;
        rules = reversal_rule ∷ [];
        context = record {
          amount_minor = p.amount_minor;
          product = "reversal";
          channel = "internal";
          branch_id = none;
          department_id = none;
          risk_flags = [];
        };
        created_by_id = i.actor_id;
        due_at = none;
      })))

abbrev is_success : ProviderStatus → Bool
is_success ProviderStatus.success = true
is_success ProviderStatus.failed = false
is_success ProviderStatus.reversed = false
is_success ProviderStatus.pending = false
is_success ProviderStatus.unknown = false

abbrev is_processed : ReversalStatus → Bool
is_processed requested = false
is_processed processed = true

-- SELECT … FROM reversals WHERE payment_id = … LIMIT 1, of the row that was inserted last.
abbrev was_processed : ℕ → List Reversal → Bool
was_processed payment [] = false
was_processed payment (r ∷ rs) =
    if r.payment_id == payment then is_processed r.status else was_processed payment rs

-- INSERT INTO reversals; no index makes the payment unique.
unfoldable pub insert_reversal : Reversal → Exec PaymentDb (Unit {0})
insert_reversal r = modify (λ s. record s { reversals = r ∷ s.reversals })

pub data ReversalOutcome : Type 0 where
  done in_progress : ReversalOutcome

abbrev set_reversed : Payment → Payment
set_reversed p = record p { provider_status = some ProviderStatus.reversed }

-- The branch of `requestReversal` at an answer SUCCESS.
unfoldable pub reverse_now : PaymentInput → Payment → Exec Store ReversalOutcome
reverse_now i p = do
  in_payments (move i.payment_id reversed (some i.actor_id))
  in_payments (set_payment i.payment_id set_reversed)
  in_ledger (
      post_reversal_journal (record {
        tenant_id = i.tenant_id;
        payment_id = i.payment_id;
        wallet_id = p.source_wallet_id;
        amount_minor = p.amount_minor;
        fee_minor = pos 0;
        actor_id = some i.actor_id;
      }))
  in_payments (enqueue_outbox EventType.reversed i.payment_id i.tenant_id)
  pure done

-- The branch at any other answer.
unfoldable pub await_reversal : PaymentInput → Exec Store ReversalOutcome
await_reversal i = do
  in_payments (move i.payment_id provider_pending (some i.actor_id))
  pure in_progress

abbrev reversal_of : PaymentInput → Payment → ProviderStatus → Reversal
reversal_of i p status = record {
  tenant_id = i.tenant_id;
  payment_id = i.payment_id;
  amount_minor = p.amount_minor;
  status = if is_success status then processed else requested;
  created_by_id = i.actor_id;
}

-- `provider` is `reversePayment` of the adapter: the status that it returns, or none when it
-- throws.
module _ (provider : String → ℤ → Option ProviderStatus) where
  -- `requestReversal` of a payment that no reversal was processed for.
  unfoldable pub run_reversal : PaymentInput → Payment → String → Exec Store ReversalOutcome
  run_reversal i p reference = do
    status ← or_raise provider_error (provider reference p.amount_minor)
    in_payments (insert_reversal (reversal_of i p status))
    if is_success status then reverse_now i p else await_reversal i

  -- `requestReversal`
  unfoldable pub request_reversal : PaymentInput → Exec Store ReversalOutcome
  request_reversal i = transaction (do
    (p, reference) ← load_reversible_payment i.tenant_id i.payment_id
    settled ← gets (λ s. was_processed i.payment_id s.payment.reversals)
    if settled then pure done else run_reversal i p reference)

  -- `executeApprovedReversal`
  unfoldable pub execute_approved_reversal : PaymentInput → Exec Store ReversalOutcome
  execute_approved_reversal i = do
    p ← load_payment i.tenant_id i.payment_id
    if same_state p.status reversed then pure done else request_reversal i
