-- ===== src/Approvals/Policy.antt =====
-- packages/approvals/src/policy.ts: which approvals a policy asks for.
pub mod Laws
use z_float_2_main.Prelude.{
  ℕ, ◌+◌, Bool, true, false, not, ◌&&◌, ◌||◌, Option, none, some, List, [], ◌∷◌, ltb, ◌==◌,
  if◌then◌else◌, any, all, length, sort_by,
}
use z_float_2_main.Prelude.Int.{ℤ, pos, ltb_ℤ}
use Prim.Native.String.{String}
use text.Mathlib.Text.{◌==◌ as str_eq}

pub data Mode : Type 0 where
  sequential parallel any_of : Mode

-- `accumulatedTodayMinor` is left out: no rule reads it.
pub record ApprovalContext : Type 0 where
  pub amount_minor : ℤ
  pub product : String
  pub channel : String
  pub branch_id : Option ℕ
  pub department_id : Option ℕ
  pub risk_flags : List String

-- A list that the source leaves out and an empty one are read alike, so both are the empty list.
pub record ApprovalRule : Type 0 where
  pub min_amount_minor : Option ℤ
  pub max_amount_minor : Option ℤ
  pub products : List String
  pub channels : List String
  pub branch_ids : List ℕ
  pub department_ids : List ℕ
  pub risk_flags : List String
  pub mode : Mode
  pub required_roles : List String
  pub min_approvers : ℕ
  pub order : ℕ

pub record ApprovalStepRequirement : Type 0 where
  pub level : ℕ
  pub mode : Mode
  pub roles : List String
  pub min_approvers : ℕ

abbrev pub includes : List String → String → Bool
includes xs x = any (λ y. str_eq y x) xs

abbrev pub includes_id : List ℕ → Option ℕ → Bool
includes_id xs none = false
includes_id xs (some x) = any (λ y. y == x) xs

abbrev pub is_empty {ℓ} : {A : Type ℓ} → List A → Bool
is_empty [] = true
is_empty (x ∷ xs) = false

-- `amountMinor` is not under the least amount.
abbrev pub above_min : Option ℤ → ℤ → Bool
above_min none a = true
above_min (some m) a = not (ltb_ℤ a m)

-- 0 and no value are no bound.
abbrev pub below_max : Option ℤ → ℤ → Bool
below_max none a = true
below_max (some m) a = not (ltb_ℤ (pos 0) m && ltb_ℤ m a)

unfoldable pub rule_matches : ApprovalRule → ApprovalContext → Bool
rule_matches rule ctx =
    above_min rule.min_amount_minor ctx.amount_minor
    && below_max rule.max_amount_minor ctx.amount_minor
    && (is_empty rule.products || includes rule.products ctx.product)
    && (is_empty rule.channels || includes rule.channels ctx.channel)
    && (is_empty rule.branch_ids || includes_id rule.branch_ids ctx.branch_id)
    && (is_empty rule.department_ids || includes_id rule.department_ids ctx.department_id)
    && (is_empty rule.risk_flags || any (includes ctx.risk_flags) rule.risk_flags)

-- `requiredRoles.forEach((roles, i) => steps.push(…))`, from level i + 1 on.
abbrev pub sequence_steps : ℕ → List String → List ApprovalStepRequirement
sequence_steps i [] = []
sequence_steps i (role ∷ roles) =
    record { level = i + 1; mode = sequential; roles = role ∷ []; min_approvers = 1 }
    ∷ sequence_steps (i + 1) roles

abbrev pub single_step : ApprovalRule → List ApprovalStepRequirement
single_step rule =
    record {
      level = 1;
      mode = rule.mode;
      roles = rule.required_roles;
      min_approvers = rule.min_approvers;
    }
    ∷ []

abbrev pub is_sequential : Mode → Bool
is_sequential sequential = true
is_sequential parallel = false
is_sequential any_of = false

unfoldable pub steps_of : ApprovalRule → List ApprovalStepRequirement
steps_of rule =
    if is_sequential rule.mode && ltb 1 (length rule.required_roles)
    then sequence_steps 0 rule.required_roles
    else single_step rule

-- The loop over the ordered rules: the first that matches decides.
unfoldable pub first_match : List ApprovalRule → ApprovalContext → List ApprovalStepRequirement
first_match [] ctx = []
first_match (rule ∷ rules) ctx =
    if rule_matches rule ctx then steps_of rule else first_match rules ctx

unfoldable pub evaluate_policy : List ApprovalRule → ApprovalContext → List ApprovalStepRequirement
evaluate_policy rules ctx = first_match (sort_by (λ r. r.order) rules) ctx

abbrev pub is_any_of : Mode → Bool
is_any_of sequential = false
is_any_of parallel = false
is_any_of any_of = true

unfoldable pub rule_is_valid : ApprovalRule → Bool
rule_is_valid rule =
    not (is_empty rule.required_roles)
    && not (ltb rule.min_approvers 1)
    && not (is_any_of rule.mode && ltb (length rule.required_roles) rule.min_approvers)

-- `validateRules` throws at the first rule that is not valid.
unfoldable pub validate_rules : List ApprovalRule → Bool
validate_rules rules = all rule_is_valid rules

-- `needsApproval`
unfoldable pub needs_approval : List ApprovalRule → ApprovalContext → Bool
needs_approval rules ctx = not (is_empty (evaluate_policy rules ctx))
