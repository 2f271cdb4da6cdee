-- ===== src/Collections/Tables.antt =====
-- The tables of packages/payments-core/src/collections.ts and webhooks.ts
-- (packages/database/src/schema/index.ts). Names, identity numbers, descriptions and time stamps
-- are left out: no branch reads them.
use z_float_2_main.Prelude.{ℕ, Option, List}
use z_float_2_main.Prelude.Int.{ℤ}
use Prim.Native.String.{String}
use z_float_2_main.Exec.{Exec, zoom}
use z_float_2_main.Table.{Table}
use z_float_2_main.Text.{Text}
use z_float_2_main.Payments.Store.{Store}

pub data CollectionStatus : Type 0 where
  pending success failed expired cancelled : CollectionStatus

pub data Channel : Type 0 where
  mpesa_stk mpesa_c2b payment_link bank_transfer : Channel

pub record Collection : Type 0 where
  pub tenant_id : ℕ
  pub collection_number : String
  pub wallet_id : ℕ
  pub channel : Channel
  pub status : CollectionStatus
  pub amount_minor : ℤ
  pub customer_id : Option ℕ
  pub payer_phone : Option Text
  pub invoice_id : Option ℕ
  pub payment_link_id : Option ℕ
  pub provider_reference : Option String
  pub receipt_number : Option String
  pub idempotency_key : String
  pub requested_by_id : Option ℕ

pub data DocType : Type 0 where
  invoice receipt credit_note payment_receipt : DocType

pub data DocumentStatus : Type 0 where
  draft queued signed failed cancelled : DocumentStatus

pub data PaymentStatus : Type 0 where
  unpaid partial paid not_applicable : PaymentStatus

pub record EtimsDocument : Type 0 where
  pub tenant_id : ℕ
  pub doc_type : DocType
  pub status : DocumentStatus
  pub payment_status : PaymentStatus
  pub customer_id : Option ℕ
  pub total_minor : ℤ
  pub paid_minor : ℤ

pub record Customer : Type 0 where
  pub tenant_id : ℕ

pub data EventStatus : Type 0 where
  received processed duplicate failed unmatched : EventStatus

-- Of the payload, the fields that `processWebhookEvent` reads, each a string or absent.
pub record WebhookPayload : Type 0 where
  pub provider_reference : Option String
  pub transaction_id : Option String
  pub status : Option String
  pub amount_minor : Option Text
  pub receipt_number : Option String
  pub payer_phone : Option Text

pub record WebhookEvent : Type 0 where
  pub tenant_id : Option ℕ
  pub provider_event_id : String
  pub payload : WebhookPayload
  pub status : EventStatus

-- A row of recon_items with the status UNKNOWN and the source WEBHOOK; no tenant is the nil UUID.
pub record ReconItem : Type 0 where
  pub tenant_id : Option ℕ
  pub provider_reference : String
  pub amount_minor : ℤ

-- The database of the payments, and the tables around it.
pub record Portal : Type 0 where
  pub next_id : ℕ
  pub store : Store
  pub collections : Table Collection
  pub etims_documents : Table EtimsDocument
  pub customers : Table Customer
  pub webhook_events : Table WebhookEvent
  pub recon_items : List ReconItem

unfoldable pub in_store : {A : Type 0} → Exec Store A → Exec Portal A
in_store = zoom (λ s. s.store) (λ s t. record s { store = t })
