-- ===== src/Approvals/TenantPolicy.antt =====
-- packages/approvals/src/tenant-policy.ts: the rules of a tenant.
pub mod Laws
mod Tests
use z_float_2_main.Prelude.{
  ℕ, ◌+◌, Bool, true, false, not, ◌&&◌, Option, none, some, List, [], ◌∷◌, ltb, ◌==◌, if◌then◌else◌,
  keep,
}
use z_float_2_main.Prelude.Int.{ℤ, pos, pos_part, ltb_ℤ}
use Prim.Native.String.{String}
use text.Mathlib.Text.{◌==◌ as str_eq}
use z_float_2_main.Text.{Text, read_big_int, trim}
use z_float_2_main.Approvals.Policy.{
  Mode, sequential, parallel, any_of, ApprovalRule, is_empty, validate_rules,
}

abbrev pub demo_approval_threshold_minor : ℤ
demo_approval_threshold_minor = pos 1000000

-- `demoDefaultRules`
unfoldable pub demo_default_rules : List ApprovalRule
demo_default_rules =
    record {
      min_amount_minor = some demo_approval_threshold_minor;
      max_amount_minor = none;
      products = [];
      channels = [];
      branch_ids = [];
      department_ids = [];
      risk_flags = [];
      mode = any_of;
      required_roles = "APPROVER" ∷ [];
      min_approvers = 1;
      order = 0;
    }
    ∷ []

-- An amount of a stored rule: a text, or a whole number.
pub data StoredAmount : Type 0 where
  as_text : Text → StoredAmount
  as_number : ℤ → StoredAmount

-- What a stored rule has, where it is of the kind that is read; other fields are ignored. Of the
-- number of approvers, its floor.
pub record StoredRule : Type 0 where
  pub mode : Option String
  pub required_roles : Option (List String)
  pub min_approvers : Option ℤ
  pub min_amount_minor : Option StoredAmount
  pub min_amount : Option StoredAmount
  pub max_amount_minor : Option StoredAmount
  pub max_amount : Option StoredAmount

abbrev or_else : Option StoredAmount → Option StoredAmount → Option StoredAmount
or_else none y = y
or_else (some x) y = some x

abbrev unless_blank : Text → Option ℤ → Option ℤ
unless_blank [] n = none
unless_blank (c ∷ s) n = n

-- `toMinorAmount`
unfoldable pub to_minor_amount : Option StoredAmount → Option ℤ
to_minor_amount none = none
to_minor_amount (some (as_text t)) = unless_blank (trim t) (read_big_int t)
to_minor_amount (some (as_number n)) = some n

unfoldable pub read_mode : Option String → Mode
read_mode none = any_of
read_mode (some m) =
    if str_eq m "SEQUENTIAL" then sequential else if str_eq m "PARALLEL" then parallel else any_of

abbrev read_roles : Option (List String) → List String
read_roles none = []
read_roles (some roles) = keep (λ r. not (str_eq r "")) roles

-- `Math.max(1, Math.floor(Number(r.minApprovers ?? 1)) || 1)`
abbrev at_least_one : Option ℤ → ℕ
at_least_one none = 1
at_least_one (some n) = if ltb_ℤ (pos 0) n then pos_part n else 1

-- `normalizeStoredRule`
unfoldable pub normalize_stored_rule : StoredRule → ℕ → ApprovalRule
normalize_stored_rule r index = record {
  min_amount_minor = to_minor_amount (or_else r.min_amount_minor r.min_amount);
  max_amount_minor = to_minor_amount (or_else r.max_amount_minor r.max_amount);
  products = [];
  channels = [];
  branch_ids = [];
  department_ids = [];
  risk_flags = [];
  mode = read_mode r.mode;
  required_roles = read_roles r.required_roles;
  min_approvers = at_least_one r.min_approvers;
  order = index;
}

-- A row of approval_policies; no rules are a column that holds no list.
pub record ApprovalPolicy : Type 0 where
  pub tenant_id : ℕ
  pub active : Bool
  pub version : ℕ
  pub rules : Option (List StoredRule)

abbrev newer : ApprovalPolicy → Option ApprovalPolicy → Option ApprovalPolicy
newer p none = some p
newer p (some q) = if ltb p.version q.version then some q else some p

-- The active policy of the tenant with the greatest version.
unfoldable pub active_policy : ℕ → List ApprovalPolicy → Option ApprovalPolicy
active_policy tenant [] = none
active_policy tenant (p ∷ policies) =
    let rest = active_policy tenant policies in
    if p.tenant_id == tenant && p.active then newer p rest else rest

unfoldable pub normalize_from : ℕ → List StoredRule → List ApprovalRule
normalize_from i [] = []
normalize_from i (r ∷ rules) = normalize_stored_rule r i ∷ normalize_from (i + 1) rules

abbrev stored : Option (List StoredRule) → List StoredRule
stored none = []
stored (some rules) = rules

-- Rules that are empty, or that `validateRules` refuses, are no policy.
abbrev pub if_valid : List ApprovalRule → Option (List ApprovalRule)
if_valid rules = if not (is_empty rules) && validate_rules rules then some rules else none

abbrev pub rules_of : Option ApprovalPolicy → Option (List ApprovalRule)
rules_of none = none
rules_of (some p) = if_valid (normalize_from 0 (stored p.rules))

-- `loadTenantActivePolicyRules`
unfoldable pub load_tenant_active_policy_rules :
    ℕ → List ApprovalPolicy → Option (List ApprovalRule)
load_tenant_active_policy_rules tenant policies = rules_of (active_policy tenant policies)
