-- ===== src/Collections/Tests.antt =====
-- Runs on a small shop: a collection that waits for its payer, and callbacks.
use mathlib.Core.Path.{subst}
use mathlib.Core.Option.{some-injective}
use z_float_2_main.Prelude.{ℕ, ◌≡◌, ◌≢◌, refl, none, some, Option, [], ◌∷◌, true, Bool}
use z_float_2_main.Prelude.Int.{ℤ, pos}
use Prim.Native.String.{String}
use z_float_2_main.Exec.{ok}
use z_float_2_main.Table.{find}
use z_float_2_main.Text.{Text, codes}
use z_float_2_main.Phone.{normalize_kenyan_phone, normalize_kenyan_phone_again}
use z_float_2_main.Ledger.Tests.{opening}
use z_float_2_main.Ledger.Wallet.{record_wallet_funding}
use z_float_2_main.Ledger.Journal.{post_funding_journal}
use z_float_2_main.Payments.Tables.{ProviderStatus}
use z_float_2_main.Payments.Store.{Store}
use z_float_2_main.Payments.Consistent.{IsConsistent}
use z_float_2_main.Payments.Trace.{IsTraced}
use z_float_2_main.Payments.Tests.{
  genesis, genesis-IsConsistent, created, created-IsConsistent, submitted, submitted-IsConsistent,
}
use z_float_2_main.Payments.Tests.Runs.{defs, rent_row}
use z_float_2_main.Collections.Tables.{
  CollectionStatus, Channel, Collection, DocType, DocumentStatus, PaymentStatus, EtimsDocument,
  Portal, EventStatus, WebhookPayload, WebhookEvent, in_store,
}
use z_float_2_main.Collections.Settle.{
  SettleCollectionInput, credit_wallet, set_collection, set_document, apply_to_invoice,
  apply_invoice_payment, apply_if_invoiced, settle_now, settle_at, settle_collection, fail_pending,
  fail_collection,
}
use z_float_2_main.Collections.Request.{
  CollectionRequestResult, RequestCollectionInput, request_stk_collection,
}
use z_float_2_main.Collections.Webhooks.{
  VerifiedWebhook, accepted, duplicate_event, insert_unless, ingest_webhook, apply_outcome,
  outcome_of, process_webhook_event,
}
use z_float_2_main.Collections.Webhooks.Laws.{
  process_webhook_event-IsConsistent, apply_outcome_untraced, ingest_webhook_once,
}
use z_float_2_main.Collections.Monitor.{monitor_stuck_payments}
use z_float_2_main.Collections.Monitor.Laws.{monitor_stuck_payments-IsConsistent}
use z_float_2_main.Collections.Reachable.{PortalSteps, start, next, request, settle}

runs : Unit {0}
unfolding defs record_wallet_funding post_funding_journal credit_wallet set_collection set_document
    apply_to_invoice apply_invoice_payment apply_if_invoiced settle_now settle_at settle_collection
    fail_pending fail_collection in_store insert_unless ingest_webhook normalize_kenyan_phone
runs = tt

abbrev sale : EtimsDocument
sale = record {
  tenant_id = 7;
  doc_type = DocType.invoice;
  status = DocumentStatus.signed;
  payment_status = PaymentStatus.unpaid;
  customer_id = none;
  total_minor = pos 800;
  paid_minor = pos 0;
}

abbrev waiting : Collection
waiting = record {
  tenant_id = 7;
  collection_number = "COL-1";
  wallet_id = 1;
  channel = Channel.mpesa_stk;
  status = CollectionStatus.pending;
  amount_minor = pos 500;
  customer_id = none;
  payer_phone = none;
  invoice_id = some 30;
  payment_link_id = none;
  provider_reference = some "ws_CO_1";
  receipt_number = none;
  idempotency_key = "sale-1";
  requested_by_id = some 5;
}

abbrev payload : WebhookPayload
payload = record {
  provider_reference = some "ws_CO_1";
  transaction_id = none;
  status = some "SUCCESS";
  amount_minor = some (codes "500");
  receipt_number = some "SFT1";
  payer_phone = none;
}

abbrev event : WebhookEvent
event = record {
  tenant_id = none;
  provider_event_id = "evt-1";
  payload = payload;
  status = EventStatus.received;
}

abbrev shop : Portal
shop = record {
  next_id = 50;
  store = genesis;
  collections = (40, waiting) ∷ [];
  etims_documents = (30, sale) ∷ [];
  customers = [];
  webhook_events = (41, event) ∷ [];
  recon_items = [];
}

abbrev paid_by_payer : SettleCollectionInput
paid_by_payer = record {
  collection_id = 40;
  receipt_number = some "SFT1";
  amount_minor = some (pos 500);
  payer_phone = some (codes "0712 345 678");
  actor_id = none;
  ref_type = none;
}

abbrev settled : Portal
settled = (settle_collection paid_by_payer shop).1

paid_invoice :
    find 30 settled.etims_documents
    ≡ some (record sale { paid_minor = pos 500; payment_status = PaymentStatus.partial })
unfolding runs
paid_invoice = refl

phone : normalize_kenyan_phone (codes "0712 345 678") ≡ some (codes "+254712345678")
unfolding runs
phone = refl

normalize_kenyan_phone_again_example :
    normalize_kenyan_phone (codes "+254712345678") ≡ some (codes "+254712345678")
normalize_kenyan_phone_again_example =
    normalize_kenyan_phone_again (codes "0712 345 678") (codes "+254712345678") phone

-- A plus sign within the number is kept.
odd_phone : normalize_kenyan_phone (codes "254+12345678") ≡ some (codes "+254+12345678")
unfolding runs
odd_phone = refl

ordinary :
    (e : WebhookEvent)
    → find 41 shop.webhook_events ≡ some e
    → outcome_of e.payload.status ≢ ProviderStatus.reversed
unfolding find
ordinary e there =
    subst (λ x. outcome_of x.payload.status ≢ ProviderStatus.reversed)
      (some-injective event e there) λ h. cc

process_webhook_event-IsConsistent_example :
    IsConsistent opening (process_webhook_event 41 shop).1.store
process_webhook_event-IsConsistent_example =
    process_webhook_event-IsConsistent opening 41 shop genesis-IsConsistent ordinary

is_created : find 20 created.payment.payments ≡ some rent_row
unfolding runs
is_created = refl

apply_outcome_untraced_example :
    ¬ IsTraced (apply_outcome ProviderStatus.reversed 20 "MPESA-9" created).1.payment
apply_outcome_untraced_example =
    apply_outcome_untraced 20 "MPESA-9" rent_row created created-IsConsistent.traced is_created (cc)

abbrev delivery : VerifiedWebhook
delivery = record { valid = true; provider_event_id = some "evt-2"; payload = payload }

abbrev ingested : Portal
ingested = (ingest_webhook "drawn-1" delivery shop).1

ingests : ingest_webhook "drawn-1" delivery shop ≡ (ok accepted, ingested)
unfolding runs
ingests = refl

ingest_webhook_once_example :
    ingest_webhook "drawn-2" delivery ingested ≡ (ok duplicate_event, ingested)
ingest_webhook_once_example =
    ingest_webhook_once "drawn-1" "drawn-2" "evt-2" delivery delivery accepted shop ingested refl
      ingests refl refl

abbrev fails_all : String → ℕ → Option ProviderStatus
fails_all reference id = some ProviderStatus.failed

abbrev all_old : ℕ → Bool
all_old id = true

monitor_stuck_payments-IsConsistent_example :
    IsConsistent opening (monitor_stuck_payments fails_all all_old 50 submitted).1
monitor_stuck_payments-IsConsistent_example =
    monitor_stuck_payments-IsConsistent opening fails_all all_old 50 submitted
      submitted-IsConsistent

abbrev takes : ℤ → Text → Option CollectionRequestResult
takes amount to =
    some (record { status = ProviderStatus.pending; provider_reference = some "ws_CO_2" })

abbrev asked : RequestCollectionInput
asked = record {
  tenant_id = 7;
  actor_id = 5;
  wallet_id = none;
  phone = codes "0712345678";
  amount_minor = some (pos 700);
  invoice_id = none;
  customer_id = none;
  idempotency_key = "sale-2";
}

abbrev route :
    PortalSteps shop
      (settle_collection paid_by_payer (request_stk_collection takes "COL-2" asked shop).1).1
route = next (next start (request takes "COL-2" asked)) (settle paid_by_payer)
