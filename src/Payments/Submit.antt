-- ===== src/Payments/Submit.antt =====
-- packages/payments-core/src/payments.ts: submitting, queueing, approving and cancelling
-- payments. `assert_payee_approved` is of beneficiaries.ts.
use z_float_2_main.Prelude.{
  ℕ, Bool, true, false, not, ◌&&◌, ◌||◌, Option, none, some, List, [], ◌∷◌, ◌++◌, ◌==◌,
  if◌then◌else◌,
}
use Prim.Native.String.{String}
use text.Mathlib.Text.{◌==◌ as str_eq}
use z_float_2_main.Exec.{
  Exec, Result, ok, err, pure, raise, gets, transaction, attempt, raise_if, or_raise, ◌>>=◌, ◌>>◌,
  payment_not_found, invalid_state, no_wallet, not_found, payee_not_approved, insufficient_funds,
  constraint,
}
use z_float_2_main.Table.{find}
use z_float_2_main.Ledger.Reservation.{Reserved, reserve_funds}
use z_float_2_main.Approvals.Policy.{
  parallel, ApprovalContext, ApprovalRule, includes, is_empty, evaluate_policy,
}
use z_float_2_main.Approvals.Service.{create_approval_request}
use z_float_2_main.Payments.State.{
  PaymentState, draft, validating, pending_approval, approved, rejected, queued, failed, cancelled,
  same_state,
}
use z_float_2_main.Payments.Tables.{
  PaymentDb, Payment, Beneficiary, BeneficiaryStatus, EventType, approval_requested,
}
use z_float_2_main.Payments.Store.{
  Store, in_payments, in_ledger, in_approvals, move, enqueue_outbox, set_payment,
}

abbrev of_tenant : ℕ → Option Beneficiary → Option Beneficiary
of_tenant tenant none = none
of_tenant tenant (some b) = if b.tenant_id == tenant then some b else none

abbrev is_active : BeneficiaryStatus → Bool
is_active BeneficiaryStatus.pending = false
is_active BeneficiaryStatus.active = true
is_active BeneficiaryStatus.rejected = false

-- `assertPayeeApproved`
unfoldable pub assert_payee_approved : ℕ → Option ℕ → Exec PaymentDb (Unit {0})
assert_payee_approved tenant none = pure tt
assert_payee_approved tenant (some id) = do
  found ← gets (λ s. of_tenant tenant (find id s.beneficiaries))
  b ← or_raise not_found found
  raise_if (not (is_active b.status)) payee_not_approved

abbrev pub payment_of_tenant : ℕ → Option Payment → Option Payment
payment_of_tenant tenant none = none
payment_of_tenant tenant (some p) = if p.tenant_id == tenant then some p else none

-- SELECT … FOR UPDATE of a payment of the tenant, and the throw when there is none.
unfoldable pub load_payment : ℕ → ℕ → Exec Store Payment
load_payment tenant id = do
  found ← gets (λ s. payment_of_tenant tenant (find id s.payment.payments))
  or_raise payment_not_found found

-- What `queuePayment` does once `reserveFunds` has returned or thrown.
unfoldable pub after_reserve : ℕ → ℕ → ℕ → Result Reserved → Exec Store PaymentState
after_reserve id actor tenant (ok _) = do
  in_payments (move id queued (some actor))
  in_payments (enqueue_outbox EventType.queued id tenant)
  pure queued
after_reserve id actor tenant (err insufficient_funds) = do
  in_payments (move id failed (some actor))
  in_payments (enqueue_outbox EventType.failed id tenant)
  pure failed
after_reserve id actor tenant (err c) = raise c

-- `queuePayment`. Without a wallet the update finds no row, and the entry of the denial is refused,
-- since its wallet is NOT NULL.
unfoldable pub queue_payment : ℕ → ℕ → ℕ → Exec Store PaymentState
queue_payment id actor tenant = do
  found ← gets (λ s. find id s.payment.payments)
  p ← or_raise payment_not_found found
  wallet ← or_raise constraint p.source_wallet_id
  outcome ← attempt (
      in_ledger (
        reserve_funds (record {
          tenant_id = tenant;
          payment_id = id;
          wallet_id = wallet;
          amount_minor = p.total_minor;
        })))
  after_reserve id actor tenant outcome

pub record PaymentInput : Type 0 where
  pub tenant_id : ℕ
  pub payment_id : ℕ
  pub actor_id : ℕ

abbrev pub can_submit : PaymentState → Bool
can_submit s =
    same_state s draft || same_state s validating || same_state s rejected || same_state s failed

abbrev pub can_cancel : PaymentState → Bool
can_cancel s =
    same_state s draft || same_state s rejected || same_state s failed || same_state s queued

abbrev pub watchlist_flag : String
watchlist_flag = "aml_watchlist_hit"

abbrev screened_channels : List String
screened_channels = "mpesa" ∷ "till" ∷ "paybill" ∷ "bank" ∷ []

abbrev pub flag_hit : Bool → List String → List String
flag_hit hit flags = if hit then flags ++ (watchlist_flag ∷ []) else flags

-- The rule that is put in when the watchlist has the recipient and no rule asks for approval.
abbrev pub watchlist_rule : ApprovalRule
watchlist_rule = record {
  min_amount_minor = none;
  max_amount_minor = none;
  products = [];
  channels = [];
  branch_ids = [];
  department_ids = [];
  risk_flags = watchlist_flag ∷ [];
  mode = parallel;
  required_roles = "APPROVER" ∷ [];
  min_approvers = 1;
  order = 99;
}

abbrev pub context_of : Payment → List String → ApprovalContext
context_of p flags = record {
  amount_minor = p.amount_minor;
  product = p.product;
  channel = p.channel;
  branch_id = p.branch_id;
  department_id = p.department_id;
  risk_flags = flags;
}

-- The rules that decide: the policy's, or the one for the watchlist.
unfoldable pub rules_for : List ApprovalRule → ApprovalContext → Bool → List ApprovalRule
rules_for rules ctx hit =
    if is_empty (evaluate_policy rules ctx) && hit then watchlist_rule ∷ [] else rules

pub record Submitted : Type 0 where
  pub status : PaymentState
  pub approval_request_id : Option ℕ

-- The branch of `submitPayment` that asks for approval.
unfoldable pub ask_approval :
    PaymentInput → List ApprovalRule → ApprovalContext → Exec Store Submitted
ask_approval i rules ctx = do
  request ← in_approvals (
      create_approval_request (record {
        tenant_id = i.tenant_id;
        payment_id = some i.payment_id;
        resource_type = none;
        resource_id = none;
        rules = rules;
        context = ctx;
        created_by_id = i.actor_id;
        due_at = none;
      }))
  in_payments (move i.payment_id pending_approval (some i.actor_id))
  in_payments (set_payment i.payment_id (λ p. record p { approval_required = true }))
  in_payments (enqueue_outbox approval_requested i.payment_id i.tenant_id)
  pure (record { status = pending_approval; approval_request_id = some request })

unfoldable pub queue_now : PaymentInput → Exec Store Submitted
queue_now i = do
  status ← queue_payment i.payment_id i.actor_id i.tenant_id
  pure (record { status = status; approval_request_id = none })

-- The approval decision of `submitPayment`.
unfoldable pub route : PaymentInput → List ApprovalRule → ApprovalContext → Exec Store Submitted
route i rules ctx =
    if is_empty (evaluate_policy rules ctx) then queue_now i else ask_approval i rules ctx

-- `screen` is whether `screenRecipientForPayment` finds the name on the tenant's watchlist.
module _ (screen : ℕ → String → Bool) where
  unfoldable pub is_hit : ℕ → Payment → Bool
  is_hit tenant p =
      not (str_eq p.beneficiary_name "")
      && includes screened_channels p.channel
      && screen tenant p.beneficiary_name

  -- `submitPayment`, with the rules of the policy.
  unfoldable pub submit_payment : List ApprovalRule → PaymentInput → Exec Store Submitted
  submit_payment rules i = transaction (do
    p ← load_payment i.tenant_id i.payment_id
    raise_if (not (can_submit p.status)) invalid_state
    or_raise no_wallet p.source_wallet_id
    in_payments (assert_payee_approved i.tenant_id p.beneficiary_id)
    in_payments (move i.payment_id validating (some i.actor_id))
    let hit = is_hit i.tenant_id p
    in_payments (
        if hit
        then set_payment i.payment_id (λ q. record q { risk_flags = flag_hit true p.risk_flags })
        else pure tt)
    let ctx = context_of p (flag_hit hit p.risk_flags)
    route i (rules_for rules ctx hit) ctx)

abbrev set_approver : ℕ → Payment → Payment
set_approver actor p = record p { approved_by_id = some actor }

-- `approveQueuedPayment`
unfoldable pub approve_queued_payment : PaymentInput → Exec Store PaymentState
approve_queued_payment i = transaction (do
  p ← load_payment i.tenant_id i.payment_id
  raise_if (not (same_state p.status pending_approval)) invalid_state
  in_payments (move i.payment_id approved (some i.actor_id))
  in_payments (set_payment i.payment_id (set_approver i.actor_id))
  queue_payment i.payment_id i.actor_id i.tenant_id)

-- `cancelPayment`
unfoldable pub cancel_payment : PaymentInput → Exec Store (Unit {0})
cancel_payment i = transaction (do
  p ← load_payment i.tenant_id i.payment_id
  raise_if (not (can_cancel p.status)) invalid_state
  in_payments (move i.payment_id cancelled (some i.actor_id))
  in_payments (enqueue_outbox EventType.cancelled i.payment_id i.tenant_id)
  pure tt)
