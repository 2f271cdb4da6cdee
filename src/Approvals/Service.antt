-- ===== src/Approvals/Service.antt =====
-- packages/approvals/src/service.ts: requests, their steps, and the actions of approvers.
mod Tables
pub mod Laws
use z_float_2_main.Prelude.{
  ℕ, ◌+◌, Bool, true, false, not, ◌&&◌, ◌||◌, Option, none, some, List, [], ◌∷◌, ltb, leb, ◌==◌,
  if◌then◌else◌, any, length, sort_by, first_where, keep,
}
use Prim.Native.String.{String}
use z_float_2_main.Exec.{
  Exec, pure, raise, gets, transaction, modify, raise_if, or_raise, ◌>>=◌, ◌>>◌, not_found,
  policy_error, no_steps_required, already_resolved, maker_checker_violation, already_acted,
  no_actionable_step, role_mismatch,
}
use z_float_2_main.Table.{Table, find, update}
pub use z_float_2_main.Approvals.Service.Tables.{
  RequestStatus, StepStatus, Decision, Resource, ApprovalRequest, ApprovalStep, ApprovalAction,
  ApprovalDb, CreateApprovalInput, ApprovalActionInput, partially_approved, expired, cancelled,
  in_progress, skipped, approve, reject, payment, batch, beneficiary, reversal, invite,
  platform_config,
}
use z_float_2_main.Approvals.Policy.{
  Mode, sequential, is_sequential, ApprovalContext, ApprovalRule, ApprovalStepRequirement, includes,
  is_empty, evaluate_policy, validate_rules,
}

abbrev sum_approvers : List ApprovalStepRequirement → ℕ
sum_approvers [] = 0
sum_approvers (s ∷ ss) = s.min_approvers + sum_approvers ss

abbrev first_mode : List ApprovalStepRequirement → Mode
first_mode [] = sequential
first_mode (s ∷ _) = s.mode

abbrev request_of : CreateApprovalInput → List ApprovalStepRequirement → ApprovalRequest
request_of i steps = record {
  tenant_id = i.tenant_id;
  payment_id = i.payment_id;
  resource_type = i.resource_type;
  resource_id = i.resource_id;
  policy_snapshot = i.rules;
  status = RequestStatus.pending;
  mode = first_mode steps;
  required_approvals = sum_approvers steps;
  current_level = 1;
  due_at = i.due_at;
  created_by_id = i.created_by_id;
}

abbrev step_of : ℕ → ApprovalStepRequirement → ApprovalStep
step_of request s = record {
  request_id = request;
  level = s.level;
  mode = s.mode;
  roles = s.roles;
  min_approvers = s.min_approvers;
  status = if s.level == 1 then in_progress else StepStatus.pending;
}

abbrev pub add_step : ℕ → ApprovalStepRequirement → ApprovalDb → ApprovalDb
add_step request step s = record s {
  next_id = s.next_id + 1;
  approval_steps = (s.next_id, step_of request step) ∷ s.approval_steps;
}

unfoldable pub insert_steps : ℕ → List ApprovalStepRequirement → Exec ApprovalDb (Unit {0})
insert_steps request [] = pure tt
insert_steps request (step ∷ steps) = do modify (add_step request step); insert_steps request steps

abbrev pub add_request :
    CreateApprovalInput → List ApprovalStepRequirement → ApprovalDb → ApprovalDb
add_request i steps s = record s {
  next_id = s.next_id + 1;
  approval_requests = (s.next_id, request_of i steps) ∷ s.approval_requests;
}

-- `createApprovalRequest`
unfoldable pub create_approval_request : CreateApprovalInput → Exec ApprovalDb ℕ
create_approval_request i = do
  raise_if (not (validate_rules i.rules)) policy_error
  let steps = evaluate_policy i.rules i.context
  raise_if (is_empty steps) no_steps_required
  transaction (do
    request ← gets (λ s. s.next_id)
    modify (add_request i steps)
    insert_steps request steps
    pure request)

abbrev pub is_resolved : RequestStatus → Bool
is_resolved RequestStatus.pending = false
is_resolved partially_approved = false
is_resolved RequestStatus.approved = true
is_resolved RequestStatus.rejected = true
is_resolved expired = true
is_resolved cancelled = true

abbrev pub is_closed : StepStatus → Bool
is_closed StepStatus.pending = false
is_closed in_progress = false
is_closed StepStatus.approved = true
is_closed StepStatus.rejected = true
is_closed skipped = true

abbrev pub is_waiting : StepStatus → Bool
is_waiting StepStatus.pending = true
is_waiting in_progress = false
is_waiting StepStatus.approved = false
is_waiting StepStatus.rejected = false
is_waiting skipped = false

abbrev pub is_delegate_of : ℕ → Option ℕ → Bool
is_delegate_of creator none = false
is_delegate_of creator (some d) = creator == d

abbrev pub has_acted : ℕ → ℕ → List ApprovalAction → Bool
has_acted request actor actions = any (λ a. a.request_id == request && a.actor_id == actor) actions

-- The steps of a request, by level.
abbrev pub steps_for : ℕ → Table ApprovalStep → List (ℕ × ApprovalStep)
steps_for request t = sort_by (λ row. row.1.level) (keep (λ row. row.1.request_id == request) t)

abbrev pub is_eligible : ApprovalRequest → ℕ × ApprovalStep → Bool
is_eligible request (_, s) =
    not (is_closed s.status)
    && (if is_sequential request.mode || is_sequential s.mode
        then s.level == request.current_level
        else true)

abbrev pub can_act_on : List String → ApprovalStep → Bool
can_act_on actor_roles s = any (includes actor_roles) s.roles

abbrev pub action_of : ApprovalActionInput → ℕ → ApprovalAction
action_of i step = record {
  request_id = i.request_id;
  step_id = step;
  actor_id = i.actor_id;
  decision = i.decision;
}

abbrev pub add_action : ApprovalAction → ApprovalDb → ApprovalDb
add_action a s = record s { approval_actions = a ∷ s.approval_actions }

abbrev pub set_request : ℕ → (ApprovalRequest → ApprovalRequest) → ApprovalDb → ApprovalDb
set_request id f s = record s { approval_requests = update id f s.approval_requests }

abbrev pub set_step : ℕ → StepStatus → ApprovalDb → ApprovalDb
set_step id status s = record s {
  approval_steps = update id (λ r. record r { status = status }) s.approval_steps;
}

abbrev is_approval : Decision → Bool
is_approval approve = true
is_approval reject = false

abbrev pub approvals_on : ℕ → List ApprovalAction → ℕ
approvals_on step actions = length (keep (λ a. a.step_id == step && is_approval a.decision) actions)

-- The steps after the one that is done: the next one is opened, or the request is approved.
unfoldable pub open_next : ℕ → Option (ℕ × ApprovalStep) → Exec ApprovalDb RequestStatus
open_next request (some (id, next)) = do
  modify (
      set_request request
        (λ r. record r { status = partially_approved; current_level = next.level }))
  modify (set_step id in_progress)
  pure partially_approved
open_next request none = do
  modify (set_request request (λ r. record r { status = RequestStatus.approved }))
  pure RequestStatus.approved

abbrev pub comes_after : ApprovalStep → ℕ × ApprovalStep → Bool
comes_after target (_, s) = ltb target.level s.level && is_waiting s.status

unfoldable pub decide :
    ApprovalActionInput
    → ℕ
    → ApprovalStep
    → List (ℕ × ApprovalStep)
    → Decision
    → Exec ApprovalDb RequestStatus
decide i id target steps reject = do
  modify (
      set_request i.request_id
        (λ r. record r { status = RequestStatus.rejected; current_level = target.level }))
  modify (set_step id StepStatus.rejected)
  pure RequestStatus.rejected
decide i id target steps approve = do
  count ← gets (λ s. approvals_on id s.approval_actions)
  if leb target.min_approvers count
      then (do
        modify (set_step id StepStatus.approved)
        open_next i.request_id (first_where (comes_after target) steps))
      else pure partially_approved

-- `recordApprovalAction`: the status that the caller is told.
unfoldable pub record_approval_action : ApprovalActionInput → Exec ApprovalDb RequestStatus
record_approval_action i = transaction (do
  found ← gets (λ s. find i.request_id s.approval_requests)
  request ← or_raise not_found found
  raise_if (is_resolved request.status) already_resolved
  raise_if (request.created_by_id == i.actor_id) maker_checker_violation
  raise_if (is_delegate_of request.created_by_id i.delegated_for_id) maker_checker_violation
  acted ← gets (λ s. has_acted i.request_id i.actor_id s.approval_actions)
  raise_if acted already_acted
  steps ← gets (λ s. steps_for i.request_id s.approval_steps)
  target ← or_raise no_actionable_step (first_where (is_eligible request) steps)
  raise_if (not (can_act_on i.actor_roles target.1)) role_mismatch
  modify (add_action (action_of i target.0))
  decide i target.0 target.1 steps i.decision)

abbrev is_pending : RequestStatus → Bool
is_pending RequestStatus.pending = true
is_pending partially_approved = false
is_pending RequestStatus.approved = false
is_pending RequestStatus.rejected = false
is_pending expired = false
is_pending cancelled = false

abbrev at_or_before : ℕ → Option ℕ → Bool
at_or_before now none = false
at_or_before now (some due) = leb due now

abbrev pub is_due : ℕ → ApprovalRequest → Bool
is_due now r = is_pending r.status && at_or_before now r.due_at

abbrev pub expire : ApprovalRequest → ApprovalRequest
expire r = record r { status = expired }

unfoldable pub expire_rows : ℕ → Table ApprovalRequest → Table ApprovalRequest
expire_rows now [] = []
expire_rows now ((id, r) ∷ t) = (id, if is_due now r then expire r else r) ∷ expire_rows now t

-- `expireDueApprovals`: the number of requests that it expires.
unfoldable pub expire_due_approvals : ℕ → Exec ApprovalDb ℕ
expire_due_approvals now = do
  count ← gets (λ s. length (keep (λ row. is_due now row.1) s.approval_requests))
  modify (λ s. record s { approval_requests = expire_rows now s.approval_requests })
  pure count
