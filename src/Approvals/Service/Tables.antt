-- ===== src/Approvals/Service/Tables.antt =====
-- The tables of packages/approvals/src/service.ts (packages/database/src/schema/index.ts), and the
-- inputs of its operations.
use z_float_2_main.Prelude.{ℕ, Option, List}
use Prim.Native.String.{String}
use z_float_2_main.Table.{Table}
use z_float_2_main.Approvals.Policy.{Mode, ApprovalContext, ApprovalRule}

pub data RequestStatus : Type 0 where
  pending partially_approved approved rejected expired cancelled : RequestStatus

pub data StepStatus : Type 0 where
  pending in_progress approved rejected skipped : StepStatus

pub data Decision : Type 0 where
  approve reject : Decision

pub data Resource : Type 0 where
  payment batch beneficiary reversal invite platform_config : Resource

-- Of the policy's snapshot the rules are kept.
pub record ApprovalRequest : Type 0 where
  pub tenant_id : ℕ
  pub payment_id : Option ℕ
  pub resource_type : Option Resource
  pub resource_id : Option ℕ
  pub policy_snapshot : List ApprovalRule
  pub status : RequestStatus
  pub mode : Mode
  pub required_approvals : ℕ
  pub current_level : ℕ
  pub due_at : Option ℕ
  pub created_by_id : ℕ

pub record ApprovalStep : Type 0 where
  pub request_id : ℕ
  pub level : ℕ
  pub mode : Mode
  pub roles : List String
  pub min_approvers : ℕ
  pub status : StepStatus

pub record ApprovalAction : Type 0 where
  pub request_id : ℕ
  pub step_id : ℕ
  pub actor_id : ℕ
  pub decision : Decision

pub record ApprovalDb : Type 0 where
  pub next_id : ℕ
  pub approval_requests : Table ApprovalRequest
  pub approval_steps : Table ApprovalStep
  pub approval_actions : List ApprovalAction

pub record CreateApprovalInput : Type 0 where
  pub tenant_id : ℕ
  pub payment_id : Option ℕ
  pub resource_type : Option Resource
  pub resource_id : Option ℕ
  pub rules : List ApprovalRule
  pub context : ApprovalContext
  pub created_by_id : ℕ
  pub due_at : Option ℕ

pub record ApprovalActionInput : Type 0 where
  pub request_id : ℕ
  pub actor_id : ℕ
  pub actor_roles : List String
  pub decision : Decision
  pub delegated_for_id : Option ℕ
