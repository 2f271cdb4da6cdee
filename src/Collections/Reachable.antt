-- ===== src/Collections/Reachable.antt =====
-- Any sequence of commands on payments, collections and callbacks.
use z_float_2_main.Prelude.{ℕ, ◌≡◌, ◌≢◌, Option, some, Bool}
use z_float_2_main.Prelude.Int.{ℤ}
use Prim.Native.String.{String}
use z_float_2_main.Exec.Keeps.{Keeps}
use z_float_2_main.Table.{find}
use z_float_2_main.Text.{Text}
use z_float_2_main.Payments.Tables.{ProviderStatus}
use z_float_2_main.Payments.Store.{Store}
use z_float_2_main.Payments.Reachable.{Step}
use z_float_2_main.Collections.Tables.{Portal, WebhookEvent, in_store}
use z_float_2_main.Collections.Settle.{
  SettleCollectionInput, settle_collection, fail_collection, expire_stale_collections,
}
use z_float_2_main.Collections.Request.{
  RequestCollectionInput, CollectionRequestResult, request_stk_collection,
}
use z_float_2_main.Collections.Webhooks.{
  VerifiedWebhook, ingest_webhook, process_webhook_event, outcome_of,
}
use z_float_2_main.Collections.Monitor.{monitor_stuck_payments}

-- One command, with what the outside answers; it may return or throw. An event that is processed
-- reports no reversal.
pub data PortalStep : Portal → Portal → Type 0 where
  pay : {s : Portal} {t : Store} → Step s.store t → PortalStep s (record s { store = t })
  request :
      {s : Portal} (provider : ℤ → Text → Option CollectionRequestResult) (number : String)
      (i : RequestCollectionInput)
      → PortalStep s (request_stk_collection provider number i s).1
  settle : {s : Portal} (i : SettleCollectionInput) → PortalStep s (settle_collection i s).1
  fail : {s : Portal} (id : ℕ) → PortalStep s (fail_collection id s).1
  expire : {s : Portal} (is_stale : ℕ → Bool) → PortalStep s (expire_stale_collections is_stale s).1
  ingest :
      {s : Portal} (drawn : String) (v : VerifiedWebhook)
      → PortalStep s (ingest_webhook drawn v s).1
  process :
      {s : Portal} (id : ℕ)
      → ((e : WebhookEvent)
          → find id s.webhook_events ≡ some e
          → outcome_of e.payload.status ≢ ProviderStatus.reversed)
      → PortalStep s (process_webhook_event id s).1
  monitor :
      {s : Portal} (provider : String → ℕ → Option ProviderStatus) (is_old : ℕ → Bool) (limit : ℕ)
      → PortalStep s (in_store (monitor_stuck_payments provider is_old limit) s).1

pub data PortalSteps : Portal → Portal → Type 0 where
  start : {s : Portal} → PortalSteps s s
  next : {s t u : Portal} → PortalSteps s t → PortalStep t u → PortalSteps s u
