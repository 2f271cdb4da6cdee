-- ===== src/Payments/Tables.antt =====
-- The tables of packages/payments-core (packages/database/src/schema/index.ts). Free text, time
-- stamps and columns that only reports read are left out.
use z_float_2_main.Prelude.{ℕ, Bool, Option, List}
use z_float_2_main.Prelude.Int.{ℤ}
use Prim.Native.String.{String}
use z_float_2_main.Table.{Table}
use z_float_2_main.Payments.State.{PaymentState}

pub data ProviderStatus : Type 0 where
  success failed reversed pending unknown : ProviderStatus

-- Of the beneficiary's snapshot the name is kept, trimmed as its one reader trims it.
pub record Payment : Type 0 where
  pub tenant_id : ℕ
  pub payment_number : String
  pub product : String
  pub channel : String
  pub amount_minor : ℤ
  pub fee_minor : ℤ
  pub total_minor : ℤ
  pub status : PaymentState
  pub source_wallet_id : Option ℕ
  pub beneficiary_id : Option ℕ
  pub beneficiary_name : String
  pub branch_id : Option ℕ
  pub department_id : Option ℕ
  pub idempotency_key : String
  pub provider_reference : Option String
  pub provider_status : Option ProviderStatus
  pub risk_flags : List String
  pub approval_required : Bool
  pub approved_by_id : Option ℕ
  pub created_by_id : ℕ
  pub version : ℕ

pub record PaymentStatusHistory : Type 0 where
  pub payment_id : ℕ
  pub from_status : Option PaymentState
  pub to_status : PaymentState
  pub actor_id : Option ℕ

pub data EventType : Type 0 where
  approval_requested failed queued cancelled succeeded reversed funded : EventType
  collection_received collection_failed batch_validated : EventType

pub record OutboxEvent : Type 0 where
  pub event_type : EventType
  pub aggregate_id : ℕ
  pub tenant_id : ℕ
  pub attempts : ℕ
  pub published_at : Option ℕ

pub record FeeRule : Type 0 where
  pub tenant_id : Option ℕ
  pub product : String
  pub channel : String
  pub provider : String
  pub is_active : Bool
  pub effective_from : Option ℕ
  pub effective_to : Option ℕ
  pub flat_fee_minor : ℤ
  pub percent_bps : ℤ
  pub min_fee_minor : ℤ
  pub max_fee_minor : ℤ

pub record FeeCalculation : Type 0 where
  pub tenant_id : ℕ
  pub payment_id : ℕ
  pub rule_id : Option ℕ
  pub amount_minor : ℤ
  pub fee_minor : ℤ

pub record CreatedPayment : Type 0 where
  pub payment_id : ℕ
  pub payment_number : String
  pub status : PaymentState
  pub amount_minor : ℤ
  pub fee_minor : ℤ
  pub total_minor : ℤ
  pub approval_required : Bool

-- IN_PROGRESS has no response; COMPLETED has one. The scope is `payment.create` throughout.
pub record IdempotencyRecord : Type 0 where
  pub tenant_id : ℕ
  pub key : String
  pub response : Option CreatedPayment

pub record FundingEvent : Type 0 where
  pub tenant_id : ℕ
  pub wallet_id : ℕ
  pub amount_minor : ℤ

pub data BeneficiaryStatus : Type 0 where
  pending active rejected : BeneficiaryStatus

pub record Beneficiary : Type 0 where
  pub tenant_id : ℕ
  pub status : BeneficiaryStatus

pub record PaymentAttempt : Type 0 where
  pub payment_id : ℕ
  pub attempt_number : ℕ
  pub status : ProviderStatus
  pub provider_reference : Option String

pub data ReversalStatus : Type 0 where
  requested processed : ReversalStatus

pub record Reversal : Type 0 where
  pub tenant_id : ℕ
  pub payment_id : ℕ
  pub amount_minor : ℤ
  pub status : ReversalStatus
  pub created_by_id : ℕ

-- The fee rules stand in the order of their creation.
pub record PaymentDb : Type 0 where
  pub next_id : ℕ
  pub payments : Table Payment
  pub payment_status_history : List PaymentStatusHistory
  pub outbox_events : Table OutboxEvent
  pub fee_rules : Table FeeRule
  pub fee_calculations : List FeeCalculation
  pub idempotency_records : List IdempotencyRecord
  pub funding_events : Table FundingEvent
  pub beneficiaries : Table Beneficiary
  pub payment_attempts : List PaymentAttempt
  pub reversals : List Reversal
