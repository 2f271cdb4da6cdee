-- ===== src/Collections/Webhooks/Laws.antt =====
-- Callbacks of providers (packages/payments-core/src/webhooks.ts).
use z_float_2_main.Prelude.{
  ==_self, ℕ, ◌≡◌, ◌≢◌, refl, sym, ◌∙◌, Option, none, some, Bool, true, false, if◌then◌else◌,
}
use z_float_2_main.Prelude.Int.{ℤ}
use Prim.Native.String.{String}
use text.Mathlib.Text.{◌==◌ as str_eq}
use text.Mathlib.TextPositions.{eq_refl}
use z_float_2_main.Exec.{Code, ok, pure, gets, or_raise, modify, raise_if, ◌>>=◌}
use z_float_2_main.Exec.Keeps.{
  Keeps, Keeps-bind, Keeps-then, Keeps-gets, Keeps-pure, Keeps-or_raise, Keeps-if,
  Keeps-transaction, Keeps-found, Keeps-read,
}
use z_float_2_main.Table.{find}
use z_float_2_main.Payments.Tables.{Payment, PaymentAttempt, ProviderStatus}
use z_float_2_main.Payments.Consistent.{set_payment-Keeps, IsConsistent}
use z_float_2_main.Payments.Consistent.Outcomes.{
  apply_provider_success-Keeps, apply_provider_failure-Keeps,
}
use z_float_2_main.Collections.Tables.{Collection, Portal, WebhookPayload, WebhookEvent}
use z_float_2_main.Collections.Settle.Laws.{
  IsSolid, in_store-Keeps, outside-Keeps, settle_collection-Keeps, fail_collection-Keeps,
}
use z_float_2_main.Collections.Settle.{or_else, find_collection_by_provider_reference}
use z_float_2_main.Collections.Webhooks.{
  set_event, settle_inbound, record_orphan, take_inbound, outcome_of, apply_outcome, take_payment,
  process_new, is_done, process_webhook_event, VerifiedWebhook, ingest_webhook, insert_unless,
  reference_of, set_reversed, has_event_id, event_of, Ingested, duplicate_event,
}
use z_float_2_main.Exec.Post.{
  Post, Post-bind, Post-gets, Post-pure, Post-modify, Post-raise_if, returned,
}
use z_float_2_main.Payments.Trace.{IsTraced}
use z_float_2_main.Payments.Store.{Store, in_payments, set_payment}
use z_float_2_main.Payments.State.{PaymentState}
use mathlib.Core.Option.{some-injective}
use z_float_2_main.Table.{find_where, update, find-update}
use z_float_2_main.Exec.{zoom}

module _ (opening : ℕ → ℤ) where
  set_event-Keeps : (id : ℕ) (x : _) → Keeps (IsSolid opening) (modify (set_event id x))
  unfolding set_event
  set_event-Keeps id x = outside-Keeps opening _ λ s. refl

  settle_inbound-Keeps :
      (id : ℕ) (p : WebhookPayload) → Keeps (IsSolid opening) (settle_inbound id p)
  unfolding settle_inbound
  settle_inbound-Keeps id p =
      Keeps-if (str_eq (or_else p.status "SUCCESS") "SUCCESS") _ _
        (Keeps-then _ _ (settle_collection-Keeps opening _) (Keeps-pure _))
        (Keeps-if (str_eq (or_else p.status "SUCCESS") "FAILED") _ _
          (Keeps-then _ _ (fail_collection-Keeps opening _) (Keeps-pure _)) (Keeps-pure _))

  record_orphan-Keeps :
      (e : WebhookEvent) (reference : String) (known : Bool)
      → Keeps (IsSolid opening) (record_orphan e reference known)
  unfolding record_orphan
  record_orphan-Keeps e reference true = Keeps-pure _
  record_orphan-Keeps e reference false =
      Keeps-bind _ _ (Keeps-or_raise _ _) λ amount. outside-Keeps opening _ λ s. refl

  take_inbound-Keeps :
      (id : ℕ) (e : WebhookEvent) (reference : String) (found : Option (ℕ × Collection))
      → Keeps (IsSolid opening) (take_inbound id e reference found)
  unfolding take_inbound
  take_inbound-Keeps id e reference none =
      Keeps-then _ _ (set_event-Keeps _ _)
        (Keeps-bind _ _ (Keeps-gets _) λ known. record_orphan-Keeps _ _ known)
  take_inbound-Keeps id e reference (some (collection, col)) =
      Keeps-then _ _ (settle_inbound-Keeps _ _) (set_event-Keeps _ _)

  apply_outcome-Keeps :
      (x : ProviderStatus) (payment : ℕ) (reference : String)
      → x ≢ ProviderStatus.reversed
      → Keeps (IsConsistent opening) (apply_outcome x payment reference)
  unfolding apply_outcome
  apply_outcome-Keeps ProviderStatus.success payment reference h =
      apply_provider_success-Keeps opening payment reference
  apply_outcome-Keeps ProviderStatus.failed payment reference h =
      apply_provider_failure-Keeps opening payment
  apply_outcome-Keeps ProviderStatus.reversed payment reference h = absurd (h refl)
  apply_outcome-Keeps ProviderStatus.unknown payment reference h =
      set_payment-Keeps opening payment _ λ p. refl
  apply_outcome-Keeps ProviderStatus.pending payment reference h =
      set_payment-Keeps opening payment _ λ p. refl

  module _ (id : ℕ) (e : WebhookEvent)
      (h : outcome_of e.payload.status ≢ ProviderStatus.reversed) where
    take_payment-Keeps :
        (reference : String) (attempt : Option PaymentAttempt)
        → Keeps (IsSolid opening) (take_payment id e reference attempt)
    unfolding take_payment find_collection_by_provider_reference
    take_payment-Keeps reference none =
        Keeps-bind _ _ (Keeps-gets _) λ found. take_inbound-Keeps id e reference found
    take_payment-Keeps reference (some a) = Keeps-transaction _ (
        Keeps-then _ _ (in_store-Keeps opening _ (apply_outcome-Keeps _ _ _ h))
          (set_event-Keeps _ _))

    process_new-Keeps : Keeps (IsSolid opening) (process_new id e)
    unfolding process_new
    process_new-Keeps =
        Keeps-if (str_eq (reference_of e.payload) "") _ _ (set_event-Keeps _ _)
          (Keeps-bind _ _ (Keeps-gets _) λ attempt. take_payment-Keeps _ attempt)

  process_found-Keeps :
      (id : ℕ) (found : Option WebhookEvent)
      → ((e : WebhookEvent)
          → found ≡ some e
          → outcome_of e.payload.status ≢ ProviderStatus.reversed)
      → Keeps (IsSolid opening) (
          or_raise Code.not_found found >>= λ e.
          if is_done e.status then pure tt else process_new id e)
  process_found-Keeps id found h =
      Keeps-found _ found _ λ e there.
        Keeps-if (is_done e.status) _ _ (Keeps-pure _) (process_new-Keeps id e (h e there))

-- From a consistent database, processing a stored event, of a payment or of a collection, leads to
-- a consistent one, whether it returns or throws, unless the event reports a reversal.
pub process_webhook_event-IsConsistent :
    (opening : ℕ → ℤ) (id : ℕ) (s : Portal)
    → IsConsistent opening s.store
    → ((e : WebhookEvent)
        → find id s.webhook_events ≡ some e
        → outcome_of e.payload.status ≢ ProviderStatus.reversed)
    → IsConsistent opening (process_webhook_event id s).1.store
unfolding process_webhook_event
process_webhook_event-IsConsistent opening id s h ordinary =
    Keeps-read (IsSolid opening) _ _ s
      ((process_found-Keeps opening id (find id s.webhook_events) ordinary).at s h)

-- From tables with the right history, a callback that reports the reversal of a payment that is not
-- reversed leaves the payment without one: the row says REVERSED, and no transition leads there.
pub apply_outcome_untraced :
    (id : ℕ) (reference : String) (p : Payment) (s : Store)
    → IsTraced s.payment
    → find id s.payment.payments ≡ some p
    → p.status ≢ PaymentState.reversed
    → ¬ IsTraced (apply_outcome ProviderStatus.reversed id reference s).1.payment
unfolding apply_outcome in_payments set_payment zoom modify
apply_outcome_untraced id reference p s h there fresh after =
    let row : find id (update id set_reversed s.payment.payments) ≡ some (set_reversed p) =
      rw (find-update id id set_reversed s.payment.payments, there, ==_self id) refl in
    fresh (some-injective _ _ (sym (h.current id p there) ∙ after.current id (set_reversed p) row))

abbrev is_there : Option (ℕ × WebhookEvent) → Bool
is_there none = false
is_there (some found) = true

abbrev IsStored : String → Portal → Type 0
IsStored id s = is_there (find_where (has_event_id id) s.webhook_events) ≡ true

insert_unless-Post :
    (id : String) (payload : WebhookPayload) (s : Portal) (found : Option (ℕ × WebhookEvent))
    → find_where (has_event_id id) s.webhook_events ≡ found
    → Post (λ _ t. IsStored id t) (insert_unless (event_of id payload) found) s
unfolding insert_unless find_where
insert_unless-Post id payload s none e =
    Post-bind _ _ s (Post-modify _ s (Post-pure _ _ (rw (eq_refl id) refl)))
insert_unless-Post id payload s (some found) e = Post-pure _ s (rw e refl)

ingest_webhook-Post :
    (drawn id : String) (v : VerifiedWebhook) (s : Portal)
    → v.provider_event_id ≡ some id
    → Post (λ _ t. IsStored id t) (ingest_webhook drawn v) s
unfolding ingest_webhook
ingest_webhook-Post drawn id v s e = Post-bind _ _ s (
    Post-raise_if _ _ s
      λ valid. Post-bind _ _ s (Post-gets _ s (rw e (insert_unless-Post id v.payload s _ refl))))

there_is :
    (o : Option (ℕ × WebhookEvent))
    → is_there o ≡ true
    → (found : ℕ × WebhookEvent) × (o ≡ some found)
there_is none h = absurd (cc)
there_is (some found) h = (found, refl)

ingest_again :
    (drawn id : String) (w : VerifiedWebhook) (s : Portal)
    → w.valid ≡ true
    → w.provider_event_id ≡ some id
    → IsStored id s
    → ingest_webhook drawn w s ≡ (ok duplicate_event, s)
unfolding ingest_webhook insert_unless gets pure raise_if ◌>>=◌
ingest_again drawn id w s valid e stored =
    let (found, there) = there_is _ stored in rw (valid, e, there) refl

-- Once `ingestWebhook` has returned for an event with an identifier, every delivery that carries
-- the identifier again and is valid is told to be a duplicate, and nothing is stored for it.
pub ingest_webhook_once :
    (first second id : String) (v w : VerifiedWebhook) (r : Ingested) (s t : Portal)
    → v.provider_event_id ≡ some id
    → ingest_webhook first v s ≡ (ok r, t)
    → w.valid ≡ true
    → w.provider_event_id ≡ some id
    → ingest_webhook second w t ≡ (ok duplicate_event, t)
ingest_webhook_once first second id v w r s t e ran valid same =
    ingest_again second id w t valid same (returned (ingest_webhook-Post first id v s e) ran)
