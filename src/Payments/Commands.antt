-- ===== src/Payments/Commands.antt =====
-- packages/payments-core/src/payments.ts: creating payments, under the
-- guard `withIdempotency`.
pub mod Replay
use z_float_2_main.Prelude.{
  ℕ, ◌+◌, Bool, true, false, not, ◌&&◌, ◌||◌, Option, none, some, List, [], ◌∷◌, ◌==◌,
  if◌then◌else◌, any, map,
}
use z_float_2_main.Prelude.Int.{ℤ, pos, ◌+ℤ◌, leb_ℤ}
use Prim.Native.String.{String}
use text.Mathlib.Text.{◌==◌ as str_eq}
use z_float_2_main.Exec.{
  Exec, pure, gets, transaction, modify, raise_if, or_raise, ◌>>=◌, ◌>>◌, wallet_not_found,
  wallet_frozen, invalid_amount, constraint,
}
use z_float_2_main.Table.{find}
use z_float_2_main.Ledger.Tables.{Wallet, WalletStatus, active, frozen, closed}
use z_float_2_main.Payments.State.{draft}
use z_float_2_main.Payments.Tables.{
  PaymentDb, Payment, PaymentStatusHistory, CreatedPayment, IdempotencyRecord,
}
use z_float_2_main.Payments.Fees.{FeeResult, compute_fee, record_fee_calculation}
use z_float_2_main.Payments.Store.{Store, in_payments}

-- The amount is what `parseMinor` reads in the input.
pub record CreatePaymentInput : Type 0 where
  pub tenant_id : ℕ
  pub actor_id : ℕ
  pub amount_minor : ℤ
  pub channel : String
  pub product : Option String
  pub source_wallet_id : ℕ
  pub branch_id : Option ℕ
  pub department_id : Option ℕ
  pub recipient_name : String
  pub idempotency_key : String
  pub provider_code : Option String

abbrev pub is_record : ℕ → String → IdempotencyRecord → Bool
is_record tenant key r = r.tenant_id == tenant && str_eq r.key key

abbrev pub completed : ℕ → String → List IdempotencyRecord → Option CreatedPayment
completed tenant key [] = none
completed tenant key (r ∷ rs) =
    if is_record tenant key r then r.response else completed tenant key rs

-- INSERT … ON CONFLICT DO NOTHING of a record that is in progress.
abbrev pub start_record : ℕ → String → List IdempotencyRecord → List IdempotencyRecord
start_record tenant key rs =
    if any (is_record tenant key) rs
    then rs
    else record { tenant_id = tenant; key = key; response = none } ∷ rs

-- UPDATE … SET status = 'COMPLETED', response = …
abbrev pub complete_record :
    ℕ → String → CreatedPayment → List IdempotencyRecord → List IdempotencyRecord
complete_record tenant key result rs =
    map (λ r. if is_record tenant key r then record r { response = some result } else r) rs

abbrev pub set_records : (List IdempotencyRecord → List IdempotencyRecord) → Store → Store
set_records f s = record s {
  payment = record s.payment { idempotency_records = f s.payment.idempotency_records };
}

unfoldable pub run_once :
    ℕ
    → String
    → Exec Store CreatedPayment
    → Option CreatedPayment
    → Exec Store (Bool × CreatedPayment)
run_once tenant key run (some prior) = pure (true, prior)
run_once tenant key run none = do
  modify (set_records (start_record tenant key))
  result ← run
  modify (set_records (complete_record tenant key result))
  pure (false, result)

-- `withIdempotency`, in the scope `payment.create`: whether the result is a replay, and the result.
unfoldable pub with_idempotency :
    ℕ → String → Exec Store CreatedPayment → Exec Store (Bool × CreatedPayment)
with_idempotency tenant key run = do
  prior ← gets (λ s. completed tenant key s.payment.idempotency_records)
  run_once tenant key run prior

abbrev pub in_tenant : ℕ → Option Wallet → Option Wallet
in_tenant tenant none = none
in_tenant tenant (some w) = if w.tenant_id == tenant then some w else none

abbrev is_active : WalletStatus → Bool
is_active active = true
is_active frozen = false
is_active closed = false

-- `loadWallet`
unfoldable pub load_wallet : ℕ → ℕ → Exec Store Wallet
load_wallet tenant id = do
  found ← gets (λ s. in_tenant tenant (find id s.ledger.wallets))
  w ← or_raise wallet_not_found found
  raise_if (not (is_active w.status)) wallet_frozen
  pure w

abbrev get_or {ℓ} : {A : Type ℓ} → A → Option A → A
get_or d none = d
get_or d (some a) = a

abbrev payment_of : String → CreatePaymentInput → FeeResult → Payment
payment_of number i fee = record {
  tenant_id = i.tenant_id;
  payment_number = number;
  product = get_or "single_payment" i.product;
  channel = i.channel;
  amount_minor = i.amount_minor;
  fee_minor = fee.fee_minor;
  total_minor = i.amount_minor +ℤ fee.fee_minor;
  status = draft;
  source_wallet_id = some i.source_wallet_id;
  beneficiary_id = none;
  beneficiary_name = i.recipient_name;
  branch_id = i.branch_id;
  department_id = i.department_id;
  idempotency_key = i.idempotency_key;
  provider_reference = none;
  provider_status = none;
  risk_flags = [];
  approval_required = false;
  approved_by_id = none;
  created_by_id = i.actor_id;
  version = 1;
}

abbrev clashes : Payment → ℕ × Payment → Bool
clashes p (_, q) =
    (q.tenant_id == p.tenant_id && str_eq q.idempotency_key p.idempotency_key)
    || str_eq q.payment_number p.payment_number

abbrev draft_history : ℕ → ℕ → PaymentStatusHistory
draft_history id actor = record {
  payment_id = id;
  from_status = none;
  to_status = draft;
  actor_id = some actor;
}

-- INSERT INTO payments and INSERT INTO payment_status_history, of a new payment.
abbrev pub add_payment : Payment → PaymentDb → PaymentDb
add_payment p s = record s {
  next_id = s.next_id + 1;
  payments = (s.next_id, p) ∷ s.payments;
  payment_status_history = draft_history s.next_id p.created_by_id ∷ s.payment_status_history;
}

-- The command that `createPayment` guards, under the unique indexes on payments.
unfoldable pub create_command : ℕ → String → CreatePaymentInput → Exec Store CreatedPayment
create_command now number i = do
  load_wallet i.tenant_id i.source_wallet_id
  fee ← in_payments (
      compute_fee now i.amount_minor (record {
        tenant_id = i.tenant_id;
        product = get_or "single_payment" i.product;
        channel = i.channel;
        provider_code = get_or "local-sandbox" i.provider_code;
      }))
  clash ← gets (λ s. any (clashes (payment_of number i fee)) s.payment.payments)
  raise_if clash constraint
  id ← gets (λ s. s.payment.next_id)
  in_payments (modify (add_payment (payment_of number i fee)))
  in_payments (record_fee_calculation i.tenant_id id i.amount_minor fee)
  pure (record {
    payment_id = id;
    payment_number = number;
    status = draft;
    amount_minor = i.amount_minor;
    fee_minor = fee.fee_minor;
    total_minor = i.amount_minor +ℤ fee.fee_minor;
    approval_required = false;
  })

-- `createPayment`, at the time `now`, with the number that `generatePaymentNumber` draws.
unfoldable pub create_payment : ℕ → String → CreatePaymentInput → Exec Store (Bool × CreatedPayment)
create_payment now number i = do
  raise_if (leb_ℤ i.amount_minor (pos 0)) invalid_amount
  transaction (with_idempotency i.tenant_id i.idempotency_key (create_command now number i))
