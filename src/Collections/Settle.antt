-- ===== src/Collections/Settle.antt =====
-- packages/payments-core/src/collections.ts: settling, failing and expiring a collection; and
-- `applyInvoicePayment` of packages/etims/src/service.ts.
pub mod Laws
pub mod Once
use z_float_2_main.Prelude.{
  ℕ, ◌+◌, Bool, true, false, not, ◌&&◌, ◌||◌, Option, none, some, List, [], ◌∷◌, ◌==◌, length, keep,
  map, if◌then◌else◌,
}
use z_float_2_main.Prelude.Int.{ℤ, pos, ◌+ℤ◌, ltb_ℤ, leb_ℤ}
use Prim.Native.String.{String}
use text.Mathlib.Text.{◌==◌ as str_eq}
use z_float_2_main.Exec.{
  Exec, pure, gets, raise, transaction, modify, or_raise, ◌>>=◌, ◌>>◌, not_found,
  collection_cancelled,
}
use z_float_2_main.Table.{Table, find, find_where, update}
use z_float_2_main.Text.{Text}
use z_float_2_main.Phone.{normalize_kenyan_phone}
use z_float_2_main.Ledger.Tables.{LedgerDb, RefType}
use z_float_2_main.Ledger.Wallet.{FundingInput, any_wallet, update_wallet, record_wallet_funding}
use z_float_2_main.Ledger.Reservation.{deposit}
use z_float_2_main.Ledger.Journal.{post_funding_journal}
use z_float_2_main.Payments.Tables.{collection_received, collection_failed}
use z_float_2_main.Payments.Store.{in_payments, in_ledger, enqueue_outbox}
use z_float_2_main.Collections.Tables.{
  CollectionStatus, pending, success, failed, expired, cancelled, Channel, mpesa_stk, mpesa_c2b,
  Collection, DocType, invoice, EtimsDocument, PaymentStatus, partial, paid, Portal, in_store,
}

-- `x ?? y`
abbrev pub or_else : {A : Type 0} → Option A → A → A
or_else none y = y
or_else (some x) y = x

-- `x ?? y`, where `y` may be null too.
abbrev pub or_also : {A : Type 0} → Option A → Option A → Option A
or_also none y = y
or_also (some x) y = some x

pub record SettleCollectionInput : Type 0 where
  pub collection_id : ℕ
  pub receipt_number : Option String
  pub amount_minor : Option ℤ
  pub payer_phone : Option Text
  pub actor_id : Option ℕ
  pub ref_type : Option RefType

pub record Settled : Type 0 where
  pub collection : Collection
  pub already_settled : Bool

-- The amount that was received, if the callback has one.
abbrev pub settled_amount : Option ℤ → Collection → ℤ
settled_amount none col = col.amount_minor
settled_amount (some a) col = if ltb_ℤ (pos 0) a then a else col.amount_minor

-- `col.paymentLinkId && input.refType === "payment_link" ? col.paymentLinkId : col.id`
abbrev pub settle_ref : ℕ → Option ℕ → Option RefType → ℕ
settle_ref id (some link) (some RefType.payment_link) = link
settle_ref id _ _ = id

abbrev pub funding_of : SettleCollectionInput → Collection → FundingInput
funding_of i col = record {
  tenant_id = col.tenant_id;
  wallet_id = col.wallet_id;
  ref_type = or_else i.ref_type RefType.collection;
  ref_id = settle_ref i.collection_id col.payment_link_id i.ref_type;
  amount_minor = settled_amount i.amount_minor col;
}

-- The update of the balance, with its entry in the wallet's ledger.
unfoldable pub credit_wallet : FundingInput → Exec LedgerDb (Unit {0})
credit_wallet f = do
  update_wallet f.wallet_id any_wallet (deposit f.amount_minor)
  record_wallet_funding f

unfoldable pub set_collection : ℕ → (Collection → Collection) → Portal → Portal
set_collection id f s = record s { collections = update id f s.collections }

unfoldable pub set_document : ℕ → (EtimsDocument → EtimsDocument) → Portal → Portal
set_document id f s = record s { etims_documents = update id f s.etims_documents }

abbrev is_invoice_type : DocType → Bool
is_invoice_type DocType.invoice = true
is_invoice_type _ = false

abbrev pub is_invoice_of : ℕ → EtimsDocument → Bool
is_invoice_of tenant d = d.tenant_id == tenant && is_invoice_type d.doc_type

abbrev pub add_paid : ℤ → EtimsDocument → EtimsDocument
add_paid amount d = record d {
  paid_minor = d.paid_minor +ℤ amount;
  payment_status =
      if leb_ℤ d.total_minor (d.paid_minor +ℤ amount)
      then PaymentStatus.paid
      else PaymentStatus.partial;
}

unfoldable pub apply_to_invoice : ℕ → ℕ → ℤ → Option EtimsDocument → Exec Portal (Unit {0})
apply_to_invoice tenant id amount none = pure tt
apply_to_invoice tenant id amount (some d) =
    if is_invoice_of tenant d then modify (set_document id (add_paid amount)) else pure tt

-- `applyInvoicePayment`
unfoldable pub apply_invoice_payment : ℕ → ℕ → ℤ → Exec Portal (Unit {0})
apply_invoice_payment tenant id amount = do
  found ← gets (λ s. find id s.etims_documents)
  apply_to_invoice tenant id amount found

unfoldable pub apply_if_invoiced : Collection → ℤ → Option ℕ → Exec Portal (Unit {0})
apply_if_invoiced col amount none = pure tt
apply_if_invoiced col amount (some id) = apply_invoice_payment col.tenant_id id amount

abbrev pub normalized : Option Text → Option Text
normalized none = none
normalized (some p) = normalize_kenyan_phone p

abbrev pub set_settled : SettleCollectionInput → Collection → Collection
set_settled i col = record col {
  status = success;
  amount_minor = settled_amount i.amount_minor col;
  receipt_number = or_also i.receipt_number col.receipt_number;
  payer_phone = or_also col.payer_phone (normalized i.payer_phone);
}

-- What `settleCollection` does to a collection that is not settled and not cancelled.
unfoldable pub settle_now : SettleCollectionInput → Collection → Exec Portal Settled
settle_now i col = do
  in_store (in_ledger (credit_wallet (funding_of i col)))
  in_store (
      in_ledger (
        post_funding_journal col.tenant_id col.wallet_id (settled_amount i.amount_minor col)
          (or_also i.actor_id col.requested_by_id)))
  modify (set_collection i.collection_id (set_settled i))
  apply_if_invoiced col (settled_amount i.amount_minor col) col.invoice_id
  in_store (in_payments (enqueue_outbox collection_received i.collection_id col.tenant_id))
  pure (record { collection = set_settled i col; already_settled = false })

unfoldable pub settle_at :
    CollectionStatus → SettleCollectionInput → Collection → Exec Portal Settled
settle_at success i col = pure (record { collection = col; already_settled = true })
settle_at cancelled i col = raise collection_cancelled
settle_at pending i col = settle_now i col
settle_at failed i col = settle_now i col
settle_at expired i col = settle_now i col

-- `settleCollection`
unfoldable pub settle_collection : SettleCollectionInput → Exec Portal Settled
settle_collection i = transaction (do
  found ← gets (λ s. find i.collection_id s.collections)
  col ← or_raise not_found found
  settle_at col.status i col)

abbrev pub is_pending : CollectionStatus → Bool
is_pending pending = true
is_pending _ = false

abbrev pub set_failed : Collection → Collection
set_failed col = record col { status = failed }

unfoldable pub fail_pending : ℕ → Collection → Exec Portal Collection
fail_pending id col = do
  modify (set_collection id set_failed)
  in_store (in_payments (enqueue_outbox collection_failed id col.tenant_id))
  pure (set_failed col)

-- `failCollection`
unfoldable pub fail_collection : ℕ → Exec Portal Collection
fail_collection id = transaction (do
  found ← gets (λ s. find id s.collections)
  col ← or_raise not_found found
  if is_pending col.status then fail_pending id col else pure col)

abbrev has_reference : String → Collection → Bool
has_reference reference col = elim col.provider_reference [
  | none ↦ false
  | some r ↦ str_eq r reference
]

-- `findCollectionByProviderReference`: the newest.
unfoldable pub find_collection_by_provider_reference :
    String → Exec Portal (Option (ℕ × Collection))
find_collection_by_provider_reference reference =
    gets (λ s. find_where (has_reference reference) s.collections)

abbrev is_stk : Channel → Bool
is_stk mpesa_stk = true
is_stk _ = false

-- The WHERE clause of `expireStaleCollections`; `is_stale` tells which rows were created before
-- the cutoff.
abbrev pub to_expire : (ℕ → Bool) → ℕ × Collection → Bool
to_expire is_stale (id, col) = is_pending col.status && is_stk col.channel && is_stale id

abbrev pub set_expired : (ℕ → Bool) → ℕ × Collection → ℕ × Collection
set_expired is_stale (id, col) =
    if to_expire is_stale (id, col) then (id, record col { status = expired }) else (id, col)

-- `expireStaleCollections`: how many there were.
unfoldable pub expire_stale_collections : (ℕ → Bool) → Exec Portal ℕ
expire_stale_collections is_stale = do
  n ← gets (λ s. length (keep (to_expire is_stale) s.collections))
  modify (λ s. record s { collections = map (set_expired is_stale) s.collections })
  pure n
