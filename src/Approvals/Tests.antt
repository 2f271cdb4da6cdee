-- ===== src/Approvals/Tests.antt =====
-- Runs of the approvals on a small database.
use z_float_2_main.Prelude.{ℕ, ◌≡◌, refl, none, some, [], ◌∷◌, true, any}
use mathlib.Core.Option
use z_float_2_main.Prelude.Int.{pos}
use z_float_2_main.Exec.{ok, pure, raise, gets, transaction, modify, raise_if, or_raise, ◌>>=◌}
use z_float_2_main.Table.{find, update}
use z_float_2_main.Approvals.Policy.{
  sequential, ApprovalRule, ApprovalContext, evaluate_policy, needs_approval, rule_matches,
  validate_rules, rule_is_valid, steps_of, first_match,
}
use z_float_2_main.Approvals.Policy.Laws.{needs_approval-any, evaluate_policy-AreLevels, AreLevels}
use z_float_2_main.Approvals.Service.{
  ApprovalDb, partially_approved, approve, ApprovalActionInput, record_approval_action,
  CreateApprovalInput, create_approval_request, insert_steps, decide, open_next, action_of,
}
use z_float_2_main.Approvals.Service.Laws.{
  HasFourEyes, IsAuthorised, record_approval_action-HasFourEyes,
  record_approval_action-IsAuthorised, create_approval_request-HasFourEyes,
}

abbrev rule : ApprovalRule
rule = record {
  min_amount_minor = some (pos 1000);
  max_amount_minor = none;
  products = [];
  channels = [];
  branch_ids = [];
  department_ids = [];
  risk_flags = [];
  mode = sequential;
  required_roles = "APPROVER" ∷ "OWNER" ∷ [];
  min_approvers = 1;
  order = 0;
}

abbrev context : ApprovalContext
context = record {
  amount_minor = pos 2500;
  product = "single_payment";
  channel = "mpesa";
  branch_id = none;
  department_id = none;
  risk_flags = [];
}

needs_approval-any_example :
    needs_approval (rule ∷ []) context ≡ any (λ r. rule_matches r context) (rule ∷ [])
needs_approval-any_example = needs_approval-any (rule ∷ []) context

rules_valid : validate_rules (rule ∷ []) ≡ true
unfolding validate_rules rule_is_valid
rules_valid = refl

evaluate_policy-AreLevels_example : AreLevels 1 (evaluate_policy (rule ∷ []) context)
evaluate_policy-AreLevels_example = evaluate_policy-AreLevels (rule ∷ []) context rules_valid

abbrev pub empty : ApprovalDb
empty = record { next_id = 1; approval_requests = []; approval_steps = []; approval_actions = [] }

pub empty-HasFourEyes : HasFourEyes empty
unfolding find
empty-HasFourEyes = record {
  distinct = tt;
  not_maker = λ id r e. cc;
  known = λ id r e. cc;
  acted_on = λ id a e. cc;
}

abbrev request : CreateApprovalInput
request = record {
  tenant_id = 7;
  payment_id = some 20;
  resource_type = none;
  resource_id = none;
  rules = rule ∷ [];
  context = context;
  created_by_id = 5;
  due_at = some 100;
}

-- A request of the user 5, with two steps.
abbrev opened : ApprovalDb
opened = (create_approval_request request empty).1

opened-HasFourEyes : HasFourEyes opened
opened-HasFourEyes = (create_approval_request-HasFourEyes request).at empty empty-HasFourEyes

abbrev by : ℕ → ApprovalActionInput
by actor = record {
  request_id = 1;
  actor_id = actor;
  actor_roles = "APPROVER" ∷ [];
  decision = approve;
  delegated_for_id = none;
}

record_approval_action-HasFourEyes_example : HasFourEyes (record_approval_action (by 6) opened).1
record_approval_action-HasFourEyes_example =
    record_approval_action-HasFourEyes (by 6) opened opened-HasFourEyes

defs : Unit {0}
unfolding record_approval_action create_approval_request insert_steps decide open_next
    validate_rules rule_is_valid evaluate_policy first_match rule_matches steps_of find update pure
    raise gets transaction modify raise_if or_raise ◌>>=◌
defs = tt

approved_first :
    record_approval_action (by 6) opened
    ≡ (ok partially_approved, (record_approval_action (by 6) opened).1)
unfolding defs
approved_first = refl

record_approval_action-IsAuthorised_example :
    (g : IsAuthorised opened (by 6)) × ((record_approval_action (by 6) opened).1.approval_actions
      ≡ action_of (by 6) g.step.0 ∷ opened.approval_actions)
record_approval_action-IsAuthorised_example =
    record_approval_action-IsAuthorised (by 6) opened (record_approval_action (by 6) opened).1
      partially_approved approved_first
