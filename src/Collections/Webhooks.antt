-- ===== src/Collections/Webhooks.antt =====
-- packages/payments-core/src/webhooks.ts: what providers call back with.
pub mod Laws
use z_float_2_main.Prelude.{
  ℕ, ◌+◌, Bool, true, false, not, ◌&&◌, ◌||◌, Option, none, some, List, [], ◌∷◌, ◌==◌, any,
  if◌then◌else◌,
}
use z_float_2_main.Prelude.Int.{ℤ, pos}
use Prim.Native.String.{String}
use text.Mathlib.Text.{◌==◌ as str_eq}
use z_float_2_main.Exec.{
  Exec, pure, gets, transaction, modify, raise_if, or_raise, ◌>>=◌, ◌>>◌, verify_failed, not_found,
  bad_number,
}
use z_float_2_main.Table.{Table, find, find_where, update}
use z_float_2_main.Text.{Text, is_number, big_int, read_big_int}
use z_float_2_main.Payments.State.{PaymentState}
use z_float_2_main.Payments.Tables.{Payment, PaymentAttempt, ProviderStatus}
use z_float_2_main.Payments.Store.{Store, in_payments, set_payment}
use z_float_2_main.Payments.Execute.{apply_provider_success, apply_provider_failure}
use z_float_2_main.Collections.Tables.{
  EventStatus, received, processed, duplicate, failed, unmatched, WebhookPayload, WebhookEvent,
  ReconItem, Collection, Portal, in_store,
}
use z_float_2_main.Collections.Settle.{
  or_else, or_also, settle_collection, fail_collection, find_collection_by_provider_reference,
}

-- What `verifyWebhook` of the adapter answers. `payload` has the fields of its event that are
-- stored.
pub record VerifiedWebhook : Type 0 where
  pub valid : Bool
  pub provider_event_id : Option String
  pub payload : WebhookPayload

pub data Ingested : Type 0 where
  accepted duplicate_event : Ingested

abbrev pub has_event_id : String → WebhookEvent → Bool
has_event_id id e = str_eq e.provider_event_id id

abbrev pub event_of : String → WebhookPayload → WebhookEvent
event_of id payload = record {
  tenant_id = none;
  provider_event_id = id;
  payload = payload;
  status = received;
}

abbrev pub add_event : WebhookEvent → Portal → Portal
add_event e s = record s {
  next_id = s.next_id + 1;
  webhook_events = (s.next_id, e) ∷ s.webhook_events;
}

unfoldable pub insert_unless : WebhookEvent → Option (ℕ × WebhookEvent) → Exec Portal Ingested
insert_unless e none = modify (add_event e) >> pure accepted
insert_unless e (some found) = pure duplicate_event

-- `ingestWebhook`; `drawn` is the identifier drawn for an event that has none.
unfoldable pub ingest_webhook : String → VerifiedWebhook → Exec Portal Ingested
ingest_webhook drawn verified = do
  raise_if (not verified.valid) verify_failed
  let id = or_else verified.provider_event_id drawn
  existing ← gets (λ s. find_where (has_event_id id) s.webhook_events)
  insert_unless (event_of id verified.payload) existing

unfoldable pub set_event : ℕ → EventStatus → Portal → Portal
set_event id x s = record s {
  webhook_events = update id (λ e. record e { status = x }) s.webhook_events;
}

-- `String(payload.providerReference ?? payload.transactionId ?? "")`
abbrev pub reference_of : WebhookPayload → String
reference_of p = or_else (or_also p.provider_reference p.transaction_id) ""

-- `payload.amountMinor`, if it is a row of digits.
abbrev pub amount_of : Option Text → Option ℤ
amount_of none = none
amount_of (some t) = if is_number t then some (pos (big_int t)) else none

abbrev has_reference : String → PaymentAttempt → Bool
has_reference reference a = elim a.provider_reference [ none ↦ false | some r ↦ str_eq r reference ]

-- The newest attempt with the reference.
abbrev pub newest_attempt : String → List PaymentAttempt → Option PaymentAttempt
newest_attempt reference [] = none
newest_attempt reference (a ∷ attempts) =
    if has_reference reference a then some a else newest_attempt reference attempts

-- `x ? String(x) : null`
abbrev non_empty : Option String → Option String
non_empty none = none
non_empty (some t) = if str_eq t "" then none else some t

-- Inbound money: the collection with the reference takes the outcome.
unfoldable pub settle_inbound : ℕ → WebhookPayload → Exec Portal (Unit {0})
settle_inbound id p =
    let status = or_else p.status "SUCCESS" in
    if str_eq status "SUCCESS"
    then (do
      settle_collection (record {
        collection_id = id;
        receipt_number = non_empty p.receipt_number;
        amount_minor = amount_of p.amount_minor;
        payer_phone = p.payer_phone;
        actor_id = none;
        ref_type = none;
      })
      pure tt)
    else if str_eq status "FAILED"
    then (do fail_collection id; pure tt)
    else pure tt

abbrev is_orphan : String → ReconItem → Bool
is_orphan reference r = str_eq r.provider_reference reference

-- `typeof payload.amountMinor === "string" ? BigInt(payload.amountMinor) : 0n`, which may throw.
abbrev orphan_amount : Option Text → Option ℤ
orphan_amount none = some (pos 0)
orphan_amount (some t) = read_big_int t

unfoldable pub record_orphan : WebhookEvent → String → Bool → Exec Portal (Unit {0})
record_orphan e reference true = pure tt
record_orphan e reference false = do
  amount ← or_raise bad_number (orphan_amount e.payload.amount_minor)
  modify (λ s. record s {
    recon_items =
        record { tenant_id = e.tenant_id; provider_reference = reference; amount_minor = amount }
        ∷ s.recon_items;
  })

unfoldable pub take_inbound :
    ℕ → WebhookEvent → String → Option (ℕ × Collection) → Exec Portal (Unit {0})
take_inbound id e reference none = do
  modify (set_event id unmatched)
  known ← gets (λ s. any (is_orphan reference) s.recon_items)
  record_orphan e reference known
take_inbound id e reference (some (collection, col)) = do
  settle_inbound collection e.payload
  modify (set_event id processed)

-- The outcome that `status` names.
abbrev pub outcome_of : Option String → ProviderStatus
outcome_of status =
    let x = or_else status "SUCCESS" in
    if str_eq x "SUCCESS"
    then ProviderStatus.success
    else if str_eq x "FAILED"
    then ProviderStatus.failed
    else if str_eq x "REVERSED"
    then ProviderStatus.reversed
    else ProviderStatus.unknown

abbrev pub set_reversed : Payment → Payment
set_reversed p = record p {
  status = PaymentState.reversed;
  provider_status = some ProviderStatus.reversed;
}

abbrev set_unknown : Payment → Payment
set_unknown p = record p { provider_status = some ProviderStatus.unknown }

-- The switch over the outcome.
unfoldable pub apply_outcome : ProviderStatus → ℕ → String → Exec Store (Unit {0})
apply_outcome ProviderStatus.success payment reference = apply_provider_success payment reference
apply_outcome ProviderStatus.failed payment reference = apply_provider_failure payment
apply_outcome ProviderStatus.reversed payment reference =
    in_payments (set_payment payment set_reversed)
apply_outcome ProviderStatus.unknown payment reference =
    in_payments (set_payment payment set_unknown)
apply_outcome ProviderStatus.pending payment reference =
    in_payments (set_payment payment set_unknown)

unfoldable pub take_payment :
    ℕ → WebhookEvent → String → Option PaymentAttempt → Exec Portal (Unit {0})
take_payment id e reference none = do
  collection ← find_collection_by_provider_reference reference
  take_inbound id e reference collection
take_payment id e reference (some a) = transaction (do
  in_store (apply_outcome (outcome_of e.payload.status) a.payment_id reference)
  modify (set_event id processed))

unfoldable pub process_new : ℕ → WebhookEvent → Exec Portal (Unit {0})
process_new id e = if str_eq (reference_of e.payload) "" then modify (set_event id failed) else (do
  attempt ← gets (λ s. newest_attempt (reference_of e.payload) s.store.payment.payment_attempts)
  take_payment id e (reference_of e.payload) attempt)

abbrev pub is_done : EventStatus → Bool
is_done processed = true
is_done duplicate = true
is_done _ = false

-- `processWebhookEvent`
unfoldable pub process_webhook_event : ℕ → Exec Portal (Unit {0})
process_webhook_event id = do
  found ← gets (λ s. find id s.webhook_events)
  e ← or_raise not_found found
  if is_done e.status then pure tt else process_new id e
