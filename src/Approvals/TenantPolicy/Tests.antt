-- ===== src/Approvals/TenantPolicy/Tests.antt =====
-- The policy of a small tenant.
use z_float_2_main.Prelude.{◌≡◌, refl, true, none, some, List, [], ◌∷◌}
use z_float_2_main.Prelude.Int.{pos, leb_ℤ, ◌-ℤ◌}
use z_float_2_main.Text.{codes, is_space, drop_spaces, trim, read_big_int}
use z_float_2_main.Approvals.Policy.{
  sequential, ApprovalRule, ApprovalContext, needs_approval, rule_is_valid, validate_rules,
}
use z_float_2_main.Approvals.TenantPolicy.{
  StoredRule, as_text, to_minor_amount, read_mode, normalize_stored_rule, normalize_from,
  ApprovalPolicy, active_policy, demo_default_rules, load_tenant_active_policy_rules,
}
use z_float_2_main.Approvals.TenantPolicy.Laws.{
  IsUsable, load_tenant_active_policy_rules-IsUsable, needs_approval_in_demo,
}

defs : Unit {0}
unfolding is_space drop_spaces trim read_big_int rule_is_valid validate_rules to_minor_amount
    read_mode normalize_stored_rule normalize_from active_policy load_tenant_active_policy_rules
    ◌-ℤ◌
defs = tt

abbrev stored : StoredRule
stored = record {
  mode = some "SEQUENTIAL";
  required_roles = some ("FINANCE" ∷ "" ∷ "OWNER" ∷ []);
  min_approvers = none;
  min_amount_minor = none;
  min_amount = some (as_text (codes " 5000 "));
  max_amount_minor = none;
  max_amount = some (as_text (codes "many"));
}

abbrev old_policy : ApprovalPolicy
old_policy = record { tenant_id = 7; active = true; version = 1; rules = none }

abbrev policy : ApprovalPolicy
policy = record { tenant_id = 7; active = true; version = 2; rules = some (stored ∷ []) }

abbrev loaded : List ApprovalRule
loaded =
    record {
      min_amount_minor = some (pos 5000);
      max_amount_minor = none;
      products = [];
      channels = [];
      branch_ids = [];
      department_ids = [];
      risk_flags = [];
      mode = sequential;
      required_roles = "FINANCE" ∷ "OWNER" ∷ [];
      min_approvers = 1;
      order = 0;
    }
    ∷ []

loads : load_tenant_active_policy_rules 7 (old_policy ∷ policy ∷ []) ≡ some loaded
unfolding defs
loads = refl

-- No policy, one without rules, and one with a rule without roles load nothing.
loads_nothing :
    (load_tenant_active_policy_rules 8 (old_policy ∷ policy ∷ []) ≡ none)
    × (load_tenant_active_policy_rules 7 (old_policy ∷ []) ≡ none)
    × (load_tenant_active_policy_rules 7
          (record policy { rules = some (record stored { required_roles = none } ∷ []) } ∷ [])
        ≡ none)
unfolding defs
loads_nothing = (refl, refl, refl)

load_tenant_active_policy_rules-IsUsable_example : IsUsable loaded
load_tenant_active_policy_rules-IsUsable_example =
    load_tenant_active_policy_rules-IsUsable 7 (old_policy ∷ policy ∷ []) loaded loads

abbrev payroll : ApprovalContext
payroll = record {
  amount_minor = pos 1000000;
  product = "payroll";
  channel = "bank";
  branch_id = none;
  department_id = none;
  risk_flags = [];
}

needs_approval_in_demo_example :
    needs_approval demo_default_rules payroll ≡ leb_ℤ (pos 1000000) (pos 1000000)
needs_approval_in_demo_example = needs_approval_in_demo payroll
