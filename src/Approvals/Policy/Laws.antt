-- ===== src/Approvals/Policy/Laws.antt =====
-- What a policy asks for, stated without the order of its rules.
use z_float_2_main.Prelude.{
  ℕ, ◌+◌, ◌≤◌, ◌≡◌, refl, Bool, true, false, not, ◌&&◌, List, [], ◌∷◌, arith, any, all, sort_by,
  ltb, any-sort_by, all-sort_by, Bool-cases, inl, inr, length, ◌∙◌, if◌then◌else◌,
}
use Prim.Native.String.{String}
use z_float_2_main.Approvals.Policy.{
  ApprovalContext, ApprovalRule, ApprovalStepRequirement, is_empty, is_sequential, rule_matches,
  sequence_steps, steps_of, first_match, evaluate_policy, needs_approval, rule_is_valid,
  validate_rules,
}

sequence-ne-nil :
    (b : Bool) (roles : List String) (step : ApprovalStepRequirement)
    → is_empty (if b && ltb 1 (length roles) then sequence_steps 0 roles else step ∷ []) ≡ false
sequence-ne-nil b [] step = ground arith
sequence-ne-nil b (r ∷ rs) step = ground arith

steps_of-ne-nil : (rule : ApprovalRule) → is_empty (steps_of rule) ≡ false
unfolding steps_of
steps_of-ne-nil rule = sequence-ne-nil _ rule.required_roles _

needs_first_match :
    (rules : List ApprovalRule) (ctx : ApprovalContext)
    → not (is_empty (first_match rules ctx)) ≡ any (λ r. rule_matches r ctx) rules
unfolding first_match
needs_first_match [] ctx = refl
needs_first_match (rule ∷ rules) ctx =
    ground (arith, steps_of-ne-nil rule, needs_first_match rules ctx)

-- A payment needs approval exactly when some rule of the policy matches it, in whatever order the
-- rules stand.
pub needs_approval-any :
    (rules : List ApprovalRule) (ctx : ApprovalContext)
    → needs_approval rules ctx ≡ any (λ r. rule_matches r ctx) rules
unfolding needs_approval evaluate_policy
needs_approval-any rules ctx =
    needs_first_match (sort_by (λ r. r.order) rules) ctx
    ∙ any-sort_by (λ r. r.order) (λ r. rule_matches r ctx) rules

-- The levels run from `i` without a gap, and every step asks for an approval of somebody.
abbrev pub AreLevels : ℕ → List ApprovalStepRequirement → Type 0
AreLevels i [] = Unit
AreLevels i (s ∷ ss) =
    (s.level ≡ i) × (1 ≤ s.min_approvers) × (is_empty s.roles ≡ false) × AreLevels (i + 1) ss

sequence_steps-AreLevels :
    (i : ℕ) (roles : List String) → AreLevels (i + 1) (sequence_steps i roles)
sequence_steps-AreLevels i [] = tt
sequence_steps-AreLevels i (r ∷ rs) = (refl, omega arith, refl, sequence_steps-AreLevels (i + 1) rs)

steps_of-AreLevels : (rule : ApprovalRule) → rule_is_valid rule ≡ true → AreLevels 1 (steps_of rule)
unfolding steps_of rule_is_valid
steps_of-AreLevels rule h =
    elim (Bool-cases (is_sequential rule.mode && ltb 1 (length rule.required_roles))) [
      | inl many ↦ rw many (sequence_steps-AreLevels 0 rule.required_roles)
      | inr one ↦ rw one (refl, ground arith, ground arith, tt)
    ]

first_match-AreLevels :
    (rules : List ApprovalRule) (ctx : ApprovalContext)
    → all rule_is_valid rules ≡ true
    → AreLevels 1 (first_match rules ctx)
unfolding first_match
first_match-AreLevels [] ctx h = tt
first_match-AreLevels (rule ∷ rules) ctx h = elim (Bool-cases (rule_matches rule ctx)) [
  | inl hit ↦ rw hit (steps_of-AreLevels rule (ground arith))
  | inr miss ↦ rw miss (first_match-AreLevels rules ctx (ground arith))
]

-- From rules that pass `validateRules`, the steps are numbered 1, 2, … and each wants at least one
-- approver, of a list of roles that is not empty.
pub evaluate_policy-AreLevels :
    (rules : List ApprovalRule) (ctx : ApprovalContext)
    → validate_rules rules ≡ true
    → AreLevels 1 (evaluate_policy rules ctx)
unfolding validate_rules evaluate_policy
evaluate_policy-AreLevels rules ctx h =
    first_match-AreLevels (sort_by (λ r. r.order) rules) ctx
      (all-sort_by (λ r. r.order) rule_is_valid rules ∙ h)
