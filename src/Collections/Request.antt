-- ===== src/Collections/Request.antt =====
-- packages/payments-core/src/collections.ts: `requestStkCollection`, a request to pay.
pub mod Laws
use z_float_2_main.Prelude.{
  ℕ, ◌+◌, Bool, true, false, not, ◌&&◌, ◌||◌, Option, none, some, List, [], ◌∷◌, ◌==◌,
  if◌then◌else◌,
}
use z_float_2_main.Prelude.Int.{ℤ, pos, ◌-ℤ◌, ltb_ℤ}
use Prim.Native.String.{String}
use text.Mathlib.Text.{◌==◌ as str_eq}
use z_float_2_main.Exec.{
  Exec, Result, ok, err, pure, gets, raise, attempt, modify, raise_if, or_raise, ◌>>=◌, ◌>>◌,
  wallet_not_found, wallet_inactive, customer_not_found, invoice_not_found, invoice_cancelled,
  invoice_paid, invalid_phone, amount_too_small, amount_too_large, provider_error, constraint,
}
use z_float_2_main.Table.{Table, find, find_where}
use z_float_2_main.Text.{Text}
use z_float_2_main.Phone.{normalize_kenyan_phone}
use z_float_2_main.Ledger.Tables.{Wallet, WalletStatus, active, frozen, closed}
use z_float_2_main.Payments.Tables.{ProviderStatus}
use z_float_2_main.Collections.Tables.{
  DocumentStatus, PaymentStatus, EtimsDocument, Customer, Collection, CollectionStatus, mpesa_stk,
  Portal,
}
use z_float_2_main.Collections.Settle.{
  or_else, or_also, is_invoice_of, set_collection, Settled, settle_collection, fail_collection,
}

-- The last row that fits: `orderBy(createdAt).limit(1)`, since new rows stand first.
unfoldable pub find_oldest : {R : Type 0} → (ℕ → R → Bool) → Table R → Option (ℕ × R)
find_oldest p [] = none
find_oldest p ((id, r) ∷ t) = or_also (find_oldest p t) (if p id r then some (id, r) else none)

abbrev is_wallet : ℕ → Option ℕ → ℕ → Wallet → Bool
is_wallet tenant none id w = w.tenant_id == tenant
is_wallet tenant (some k) id w = w.tenant_id == tenant && id == k

abbrev is_active : WalletStatus → Bool
is_active active = true
is_active frozen = false
is_active closed = false

-- `resolveWallet`
unfoldable pub resolve_wallet : ℕ → Option ℕ → Exec Portal ℕ
resolve_wallet tenant wallet = do
  found ← gets (λ s. find_oldest (is_wallet tenant wallet) s.store.ledger.wallets)
  (id, w) ← or_raise wallet_not_found found
  raise_if (not (is_active w.status)) wallet_inactive
  pure id

abbrev is_customer_of : ℕ → Option Customer → Option Customer
is_customer_of tenant none = none
is_customer_of tenant (some c) = if c.tenant_id == tenant then some c else none

-- `payerFromCustomer`, of which the customer's id is kept.
unfoldable pub payer_from_customer : ℕ → Option ℕ → Exec Portal (Option ℕ)
payer_from_customer tenant none = pure none
payer_from_customer tenant (some id) = do
  found ← gets (λ s. is_customer_of tenant (find id s.customers))
  or_raise customer_not_found found
  pure (some id)

abbrev is_cancelled : DocumentStatus → Bool
is_cancelled DocumentStatus.cancelled = true
is_cancelled _ = false

abbrev is_paid : PaymentStatus → Bool
is_paid PaymentStatus.paid = true
is_paid _ = false

abbrev invoice_of : ℕ → Option EtimsDocument → Option EtimsDocument
invoice_of tenant none = none
invoice_of tenant (some d) = if is_invoice_of tenant d then some d else none

-- `loadInvoice`
unfoldable pub load_invoice : ℕ → Option ℕ → Exec Portal (Option (ℕ × EtimsDocument))
load_invoice tenant none = pure none
load_invoice tenant (some id) = do
  found ← gets (λ s. invoice_of tenant (find id s.etims_documents))
  d ← or_raise invoice_not_found found
  raise_if (is_cancelled d.status) invoice_cancelled
  raise_if (is_paid d.payment_status) invoice_paid
  pure (some (id, d))

abbrev pub collection_min_minor : ℤ
collection_min_minor = pos 100

abbrev pub collection_max_minor : ℤ
collection_max_minor = pos 25000000

pub record RequestCollectionInput : Type 0 where
  pub tenant_id : ℕ
  pub actor_id : ℕ
  pub wallet_id : Option ℕ
  pub phone : Text
  pub amount_minor : Option ℤ
  pub invoice_id : Option ℕ
  pub customer_id : Option ℕ
  pub idempotency_key : String

-- What the provider answers to a request.
pub record CollectionRequestResult : Type 0 where
  pub status : ProviderStatus
  pub provider_reference : Option String

pub record Requested : Type 0 where
  pub collection : Collection
  pub replayed : Bool

abbrev pub has_key : ℕ → String → Collection → Bool
has_key tenant key col = col.tenant_id == tenant && str_eq col.idempotency_key key

-- The outstanding balance of an invoice.
abbrev outstanding : Option (ℕ × EtimsDocument) → ℤ
outstanding none = pos 0
outstanding (some (id, d)) = d.total_minor -ℤ d.paid_minor

abbrev customer_of : Option (ℕ × EtimsDocument) → Option ℕ
customer_of none = none
customer_of (some (id, d)) = d.customer_id

abbrev id_of : Option (ℕ × EtimsDocument) → Option ℕ
id_of none = none
id_of (some (id, d)) = some id

abbrev pub add_collection : Collection → Portal → Portal
add_collection col s = record s {
  next_id = s.next_id + 1;
  collections = (s.next_id, col) ∷ s.collections;
}

abbrev has_number : String → Collection → Bool
has_number number col = str_eq col.collection_number number

abbrev is_there : Option (ℕ × Collection) → Bool
is_there none = false
is_there (some found) = true

-- INSERT INTO collections, under its unique index on the number. No clash on the idempotency key is
-- left here: the request was looked up by it.
unfoldable pub insert_collection : Collection → Exec Portal ℕ
insert_collection col = do
  clash ← gets (λ s. find_where (has_number col.collection_number) s.collections)
  raise_if (is_there clash) constraint
  id ← gets (λ s. s.next_id)
  modify (add_collection col)
  pure id

abbrev pub set_reference : Option String → Collection → Collection
set_reference reference col = record col { provider_reference = reference }

abbrev pub answered : Collection → Requested
answered col = record { collection = col; replayed = false }

unfoldable pub await_callback : ℕ → Collection → Option String → Exec Portal Requested
await_callback id col reference = do
  modify (set_collection id (set_reference reference))
  pure (answered (set_reference reference col))

-- What the `try` block does with the status that the provider answers.
unfoldable pub take_result : ProviderStatus → ℕ → Collection → Option String → Exec Portal Requested
take_result ProviderStatus.failed id col reference = do
  row ← fail_collection id
  pure (answered row)
take_result ProviderStatus.success id col reference = do
  modify (set_collection id (set_reference reference))
  settled ← settle_collection (record {
    collection_id = id;
    receipt_number = none;
    amount_minor = none;
    payer_phone = none;
    actor_id = none;
    ref_type = none;
  })
  pure (answered settled.collection)
take_result ProviderStatus.pending id col reference = await_callback id col reference
take_result ProviderStatus.reversed id col reference = await_callback id col reference
take_result ProviderStatus.unknown id col reference = await_callback id col reference

-- The `try` block: the provider answers, or, at `none`, throws.
unfoldable pub take_answer : ℕ → Collection → Option CollectionRequestResult → Exec Portal Requested
take_answer id col none = raise provider_error
take_answer id col (some r) = take_result r.status id col r.provider_reference

-- The `catch` block.
unfoldable pub finish_request : ℕ → Result Requested → Exec Portal Requested
finish_request id (ok r) = pure r
finish_request id (err c) = do row ← fail_collection id; pure (answered row)

abbrev collection_of :
    String
    → RequestCollectionInput
    → Option (ℕ × EtimsDocument)
    → Option ℕ
    → ℕ
    → ℤ
    → Text
    → Collection
collection_of number i invoice customer wallet amount phone = record {
  tenant_id = i.tenant_id;
  collection_number = number;
  wallet_id = wallet;
  channel = mpesa_stk;
  status = CollectionStatus.pending;
  amount_minor = amount;
  customer_id = customer;
  payer_phone = some phone;
  invoice_id = id_of invoice;
  payment_link_id = none;
  provider_reference = none;
  receipt_number = none;
  idempotency_key = i.idempotency_key;
  requested_by_id = some i.actor_id;
}

-- `provider` is `requestCollection` of the adapter, of an amount and a phone; `number` is the
-- number that is drawn.
module _ (provider : ℤ → Text → Option CollectionRequestResult) (number : String) where
  unfoldable pub request_new : RequestCollectionInput → Exec Portal Requested
  request_new i = do
    phone ← or_raise invalid_phone (normalize_kenyan_phone i.phone)
    invoice ← load_invoice i.tenant_id i.invoice_id
    let amount = or_else i.amount_minor (outstanding invoice)
    raise_if (ltb_ℤ amount collection_min_minor) amount_too_small
    raise_if (ltb_ℤ collection_max_minor amount) amount_too_large
    wallet ← resolve_wallet i.tenant_id i.wallet_id
    customer ← payer_from_customer i.tenant_id (or_also i.customer_id (customer_of invoice))
    let col = collection_of number i invoice customer wallet amount phone
    id ← insert_collection col
    outcome ← attempt (take_answer id col (provider amount phone))
    finish_request id outcome

  abbrev pub replay_or : RequestCollectionInput → Option (ℕ × Collection) → Exec Portal Requested
  replay_or i (some (id, prior)) = pure (record { collection = prior; replayed = true })
  replay_or i none = request_new i

  -- `requestStkCollection`
  unfoldable pub request_stk_collection : RequestCollectionInput → Exec Portal Requested
  request_stk_collection i = do
    prior ← gets (λ s. find_where (has_key i.tenant_id i.idempotency_key) s.collections)
    replay_or i prior
