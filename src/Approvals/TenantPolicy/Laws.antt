-- ===== src/Approvals/TenantPolicy/Laws.antt =====
-- What the rules of a tenant satisfy (packages/approvals/src/tenant-policy.ts).
use z_float_2_main.Prelude.{
  ℕ, ◌+◌, ◌≤◌, ◌≡◌, refl, ap, ◌∙◌, true, false, Option, none, some, List, [], ◌∷◌, leb, arith,
  insert_by, sort_by,
}
use mathlib.Core.Path.{subst}
use z_float_2_main.Prelude.Int.{leb_ℤ}
use z_float_2_main.Approvals.Policy.{
  ApprovalRule, ApprovalContext, is_empty, rule_matches, first_match, evaluate_policy, steps_of,
  needs_approval, validate_rules,
}
use z_float_2_main.Approvals.TenantPolicy.{
  demo_default_rules, demo_approval_threshold_minor, StoredRule, normalize_stored_rule,
  normalize_from, ApprovalPolicy, active_policy, if_valid, rules_of,
  load_tenant_active_policy_rules,
}

-- The rules stand in their order, from `i` on.
abbrev IsOrdered : ℕ → List ApprovalRule → Type 0
IsOrdered i [] = Unit
IsOrdered i (r ∷ rules) = (i ≤ r.order) × IsOrdered r.order rules

normalize_from-IsOrdered :
    (i j : ℕ) (rules : List StoredRule) → i ≤ j → IsOrdered i (normalize_from j rules)
unfolding normalize_from normalize_stored_rule
normalize_from-IsOrdered i j [] h = tt
normalize_from-IsOrdered i j (r ∷ rules) h =
    (h, normalize_from-IsOrdered j (j + 1) rules (omega arith))

insert-ordered :
    (r : ApprovalRule) (rules : List ApprovalRule)
    → IsOrdered r.order rules
    → insert_by (λ x. x.order) r rules ≡ r ∷ rules
insert-ordered r [] h = refl
insert-ordered r (x ∷ rules) h =
    let first : leb r.order x.order ≡ true = ground arith in rw first refl

sort-ordered :
    (i : ℕ) (rules : List ApprovalRule) → IsOrdered i rules → sort_by (λ x. x.order) rules ≡ rules
sort-ordered i [] h = refl
sort-ordered i (r ∷ rules) h =
    ap (insert_by (λ x. x.order) r) (sort-ordered r.order rules h.1) ∙ insert-ordered r rules h.1

if_valid-cases :
    (rules out : List ApprovalRule)
    → if_valid rules ≡ some out
    → (rules ≡ out) × (is_empty rules ≡ false) × (validate_rules rules ≡ true)
if_valid-cases rules out h = ground arith

-- There is a rule, each is valid, and they are tried in the order in which they stand.
abbrev pub IsUsable : List ApprovalRule → Type 0
IsUsable rules =
    (is_empty rules ≡ false)
    × (validate_rules rules ≡ true)
    × ((ctx : ApprovalContext) → evaluate_policy rules ctx ≡ first_match rules ctx)

rules_of_stored-IsUsable :
    (stored : List StoredRule) (rules : List ApprovalRule)
    → if_valid (normalize_from 0 stored) ≡ some rules
    → IsUsable rules
unfolding evaluate_policy
rules_of_stored-IsUsable stored rules h =
    let (same, some_rule, valid) = if_valid-cases (normalize_from 0 stored) rules h in
    subst IsUsable same (
      some_rule,
      valid,
      λ ctx.
          ap (λ rs. first_match rs ctx)
            (sort-ordered 0 (normalize_from 0 stored)
              (normalize_from-IsOrdered 0 0 stored (omega arith))),
    )

rules_of-IsUsable :
    (p : Option ApprovalPolicy) (rules : List ApprovalRule)
    → rules_of p ≡ some rules
    → IsUsable rules
rules_of-IsUsable none rules h = absurd (cc)
rules_of-IsUsable (some p) rules h = rules_of_stored-IsUsable _ rules h

-- The rules that are loaded for a tenant are never empty and pass validation, whatever is stored;
-- and they are tried in the order in which they are stored.
pub load_tenant_active_policy_rules-IsUsable :
    (tenant : ℕ) (policies : List ApprovalPolicy) (rules : List ApprovalRule)
    → load_tenant_active_policy_rules tenant policies ≡ some rules
    → IsUsable rules
unfolding load_tenant_active_policy_rules
load_tenant_active_policy_rules-IsUsable tenant policies rules h =
    rules_of-IsUsable (active_policy tenant policies) rules h

-- In demo mode exactly the payments of at least the threshold need approval.
pub needs_approval_in_demo :
    (ctx : ApprovalContext)
    → needs_approval demo_default_rules ctx ≡ leb_ℤ demo_approval_threshold_minor ctx.amount_minor
unfolding needs_approval evaluate_policy first_match rule_matches steps_of demo_default_rules
needs_approval_in_demo ctx = ground arith
