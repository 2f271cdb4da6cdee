-- ===== src/Payments/Execute.antt =====
-- packages/payments-core/src/execute.ts: executing a payment, and the outcomes of the provider.
use z_float_2_main.Prelude.{ℕ, Bool, not, ◌||◌, Option, none, some, ◌∷◌, ◌==◌, if◌then◌else◌}
use Prim.Native.String.{String, ◌++◌ as str_append}
use z_float_2_main.Exec.{
  Exec, pure, gets, transaction, modify, raise_if, or_raise, ◌>>=◌, ◌>>◌, payment_not_found,
  invalid_state,
}
use z_float_2_main.Table.{find, find_where}
use z_float_2_main.Ledger.Tables.{LedgerDb, WalletReservation, is_held}
use z_float_2_main.Ledger.Reservation.{release_reservation, apply_reservation}
use z_float_2_main.Ledger.Journal.{post_payment_success_journal}
use z_float_2_main.Payments.State.{
  PaymentState, queued, processing, provider_pending, success, failed, reversed, cancelled,
  same_state,
}
use z_float_2_main.Payments.Tables.{
  PaymentDb, Payment, EventType, succeeded, ProviderStatus, unknown, PaymentAttempt,
}
use z_float_2_main.Payments.Store.{Store, in_payments, in_ledger, move, enqueue_outbox, set_payment}
use z_float_2_main.Payments.Submit.{load_payment}

abbrev add_attempt : PaymentAttempt → PaymentDb → PaymentDb
add_attempt a s = record s { payment_attempts = a ∷ s.payment_attempts }

-- `recordAttempt`
unfoldable pub record_attempt : PaymentAttempt → Exec PaymentDb (Unit {0})
record_attempt a = modify (add_attempt a)

-- SELECT … FROM wallet_reservations WHERE payment_id = … LIMIT 1
unfoldable pub reservation_for : ℕ → Exec Store (Option (ℕ × WalletReservation))
reservation_for payment =
    gets (λ s. find_where (λ r. r.payment_id == payment) s.ledger.wallet_reservations)

unfoldable pub apply_if_held : Option (ℕ × WalletReservation) → Exec LedgerDb (Unit {0})
apply_if_held none = pure tt
apply_if_held (some (id, r)) = if is_held r.status then apply_reservation id else pure tt

unfoldable pub release_if_held : Option (ℕ × WalletReservation) → Exec LedgerDb (Unit {0})
release_if_held none = pure tt
release_if_held (some (id, r)) = if is_held r.status then release_reservation id else pure tt

abbrev set_success : String → Payment → Payment
set_success reference p = record p {
  provider_reference = some reference;
  provider_status = some ProviderStatus.success;
}

abbrev set_failure : Payment → Payment
set_failure p = record p { provider_status = some ProviderStatus.failed }

abbrev pub can_succeed : PaymentState → Bool
can_succeed s = same_state s processing || same_state s provider_pending || same_state s queued

-- What `applyProviderSuccess` does to a payment that is not successful yet.
unfoldable pub settle : ℕ → String → Payment → Exec Store (Unit {0})
settle id reference p = do
  raise_if (not (can_succeed p.status)) invalid_state
  reservation ← reservation_for id
  in_ledger (apply_if_held reservation)
  in_payments (move id success none)
  in_payments (set_payment id (set_success reference))
  in_ledger (
      post_payment_success_journal (record {
        tenant_id = p.tenant_id;
        payment_id = id;
        wallet_id = p.source_wallet_id;
        amount_minor = p.amount_minor;
        fee_minor = p.fee_minor;
        actor_id = none;
      }))
  in_payments (enqueue_outbox succeeded id p.tenant_id)
  pure tt

-- `applyProviderSuccess`
unfoldable pub apply_provider_success : ℕ → String → Exec Store (Unit {0})
apply_provider_success id reference = do
  found ← gets (λ s. find id s.payment.payments)
  p ← or_raise payment_not_found found
  if same_state p.status success then pure tt else settle id reference p

abbrev pub has_ended : PaymentState → Bool
has_ended s = same_state s failed || same_state s cancelled || same_state s reversed

-- What `applyProviderFailure` does to a payment that has not ended.
unfoldable pub fail : ℕ → Payment → Exec Store (Unit {0})
fail id p = do
  reservation ← reservation_for id
  in_ledger (release_if_held reservation)
  in_payments (move id failed none)
  in_payments (set_payment id set_failure)
  in_payments (enqueue_outbox EventType.failed id p.tenant_id)
  pure tt

-- `applyProviderFailure`
unfoldable pub apply_provider_failure : ℕ → Exec Store (Unit {0})
apply_provider_failure id = do
  found ← gets (λ s. find id s.payment.payments)
  p ← or_raise payment_not_found found
  if has_ended p.status then pure tt else fail id p

pub record ProviderPaymentResult : Type 0 where
  pub status : ProviderStatus
  pub provider_reference : Option String

abbrev reference_or : String → Option String → String
reference_or d none = d
reference_or d (some r) = r

-- The switch over the status that the provider returns.
unfoldable pub follow : ℕ → String → ProviderStatus → Exec Store (Unit {0})
follow id reference ProviderStatus.success = apply_provider_success id reference
follow id reference ProviderStatus.failed = apply_provider_failure id
follow id reference ProviderStatus.reversed = in_payments (move id reversed none)
follow id reference ProviderStatus.pending = in_payments (move id provider_pending none)
follow id reference ProviderStatus.unknown = in_payments (move id provider_pending none)

-- What `executePayment` does with what the provider returns, or, at `none`, throws.
unfoldable pub take_answer : ℕ → ℕ → String → Option ProviderPaymentResult → Exec Store (Unit {0})
take_answer id number reference none = do
  in_payments (
      record_attempt (record {
        payment_id = id;
        attempt_number = number;
        status = unknown;
        provider_reference = some reference;
      }))
  in_payments (move id provider_pending none)
take_answer id number reference (some r) = do
  in_payments (
      record_attempt (record {
        payment_id = id;
        attempt_number = number;
        status = r.status;
        provider_reference = some (reference_or reference r.provider_reference);
      }))
  follow id (reference_or reference r.provider_reference) r.status

-- `provider` is `createPayment` of the adapter: its answer, or none when it throws.
module _ (provider : Payment → Option ProviderPaymentResult) where
  unfoldable pub run_payment : ℕ → ℕ → Payment → Exec Store (Unit {0})
  run_payment id number p = do
    in_payments (move id processing none)
    take_answer id number (str_append "ZF-" p.payment_number) (provider p)

  -- `executePayment` of the payment `id` of `tenant`, in the attempt `number`.
  unfoldable pub execute_payment : ℕ → ℕ → ℕ → Exec Store (Unit {0})
  execute_payment tenant id number = transaction (do
    p ← load_payment tenant id
    if same_state p.status queued then run_payment id number p else pure tt)
