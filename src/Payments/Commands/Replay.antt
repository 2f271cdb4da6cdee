-- ===== src/Payments/Commands/Replay.antt =====
-- Retries of `createPayment` under `withIdempotency` (packages/payments-core/src/payments.ts).
use z_float_2_main.Prelude.{
  ℕ, ◌≡◌, refl, Bool, true, false, Option, none, some, List, [], ◌∷◌, ◌&&◌, ◌==◌, any, arith,
  Bool-cases, inl, inr,
}
use z_float_2_main.Prelude.Int.{ℤ, pos, leb_ℤ}
use Prim.Native.String.{String}
use text.Mathlib.TextPositions.{eq_refl}
use text.Mathlib.Text.{◌==◌ as str_eq}
use z_float_2_main.Exec.{Exec, ok, pure, gets, transaction, raise_if, ◌>>=◌}
use z_float_2_main.Exec.Keeps.{
  Keeps, Keeps-modify, Keeps-bind, Keeps-then, Keeps-gets, Keeps-guard, Keeps-pure, Keeps-zoom,
  keeps_rules,
}
use z_float_2_main.Exec.Post.{
  Post, Post-bind, Post-gets, Post-raise_if, Post-pure, Post-modify, Post-of_Keeps, Post-imp,
  Post-transaction, returned,
}
use z_float_2_main.Payments.Tables.{PaymentDb, CreatedPayment, IdempotencyRecord}
use z_float_2_main.Payments.Store.{Store, in_payments}
use z_float_2_main.Payments.Fees.{FeeResult, compute_fee, record_fee_calculation}
use z_float_2_main.Payments.Commands.{
  CreatePaymentInput, is_record, completed, start_record, complete_record, run_once,
  with_idempotency, load_wallet, add_payment, create_command, create_payment,
}

-- The key has a record, in progress or completed.
HasRecord : ℕ → String → PaymentDb → Type 0
HasRecord tenant key s = any (is_record tenant key) s.idempotency_records ≡ true

same_key : (tenant : ℕ) (key : String) → (tenant == tenant && str_eq key key) ≡ true
same_key tenant key = rw (eq_refl key) (ground arith)

any-start_record :
    (tenant : ℕ) (key : String) (rs : List IdempotencyRecord)
    → any (is_record tenant key) (start_record tenant key rs) ≡ true
any-start_record tenant key rs = elim (Bool-cases (any (is_record tenant key) rs)) [
  | inl there ↦ rw there there
  | inr missing ↦ rw (missing, same_key tenant key) refl
]

any-rest :
    (p : IdempotencyRecord → Bool) (x : IdempotencyRecord) (rs : List IdempotencyRecord)
    → p x ≡ false
    → any p (x ∷ rs) ≡ true
    → any p rs ≡ true
any-rest p x rs other e = ground arith

completed-complete_record :
    (tenant : ℕ) (key : String) (r : CreatedPayment) (rs : List IdempotencyRecord)
    → any (is_record tenant key) rs ≡ true
    → completed tenant key (complete_record tenant key r rs) ≡ some r
completed-complete_record tenant key r [] e = cc
completed-complete_record tenant key r (x ∷ rs) e = elim (Bool-cases (is_record tenant key x)) [
  | inl here ↦ rw (here, here) refl
  | inr other ↦
      rw (other, other)
        (completed-complete_record tenant key r rs (any-rest (is_record tenant key) x rs other e))
]

module _ (tenant : ℕ) (key : String) where
  in_table :
      {A : Type 0} {m : Exec PaymentDb A}
      → Keeps (HasRecord tenant key) m
      → Keeps (λ s. HasRecord tenant key s.payment) (in_payments m)
  unfolding in_payments
  in_table k = Keeps-zoom {Q = HasRecord tenant key} _ _ _ (λ s h. h) (λ s t h k. k) k

  record_fee_calculation-HasRecord :
      (t payment : ℕ) (amount : ℤ) (fee : FeeResult)
      → Keeps (HasRecord tenant key) (record_fee_calculation t payment amount fee)
  unfolding record_fee_calculation HasRecord
  record_fee_calculation-HasRecord t payment amount fee = Keeps-modify _ λ s h. h

  create_command-HasRecord :
      (now : ℕ) (number : String) (i : CreatePaymentInput)
      → Keeps (λ s. HasRecord tenant key s.payment) (create_command now number i)
  unfolding create_command load_wallet compute_fee HasRecord
  create_command-HasRecord now number i = Keeps-then _ _ (search keeps_rules) (
      Keeps-bind _ _ (in_table (search keeps_rules)) λ fee. Keeps-bind _ _ (Keeps-gets _) λ clash.
        Keeps-guard _ _ _ (
          Keeps-bind _ _ (Keeps-gets _) λ id.
            Keeps-then _ _ (in_table (Keeps-modify (add_payment _) λ s h. h)) (
              Keeps-then _ _ (in_table (record_fee_calculation-HasRecord _ _ _ _)) (Keeps-pure _))))

  -- What `with_idempotency` returns is on record, as the key's result, in the state that it leaves.
  run_once-Post :
      (now : ℕ) (number : String) (i : CreatePaymentInput) (prior : Option CreatedPayment)
      (s : Store)
      → completed tenant key s.payment.idempotency_records ≡ prior
      → Post
          (λ a t. completed tenant key t.payment.idempotency_records ≡ some a.1)
          (run_once tenant key (create_command now number i) prior)
          s
  unfolding run_once HasRecord
  run_once-Post now number i (some r) s e = Post-pure _ _ e
  run_once-Post now number i none s e = Post-bind _ _ s (
      Post-modify _ s (
        Post-bind _ _ _ (
          Post-imp _ _
            (Post-of_Keeps (λ t. HasRecord tenant key t.payment) _ _
              (create_command-HasRecord now number i)
              (any-start_record tenant key s.payment.idempotency_records))
            λ r t there. Post-bind _ _ t (
              Post-modify _ t (
                Post-pure _ _
                  (completed-complete_record tenant key r t.payment.idempotency_records there))))))

create_payment-Post :
    (now : ℕ) (number : String) (i : CreatePaymentInput) (s : Store)
    → Post
        (λ a t. completed i.tenant_id i.idempotency_key t.payment.idempotency_records ≡ some a.1)
        (create_payment now number i)
        s
unfolding create_payment with_idempotency
create_payment-Post now number i s = Post-bind _ _ s (
    Post-raise_if _ _ s λ _. Post-transaction _ _ (
      Post-bind _ _ _
        (Post-gets _ _ (run_once-Post i.tenant_id i.idempotency_key now number i _ s refl))))

-- A call whose key is completed returns the recorded result, as a replay, and writes nothing.
replay_of_completed :
    (now : ℕ) (number : String) (i : CreatePaymentInput) (s : Store) (r : CreatedPayment)
    → leb_ℤ i.amount_minor (pos 0) ≡ false
    → completed i.tenant_id i.idempotency_key s.payment.idempotency_records ≡ some r
    → create_payment now number i s ≡ (ok (true, r), s)
unfolding create_payment with_idempotency run_once transaction gets raise_if pure ◌>>=◌
replay_of_completed now number i s r positive done = rw (positive, done) refl

-- When `createPayment` returned a result, a call with the same tenant and idempotency key and a
-- positive amount, at any time and with any other input, returns the same result as a replay, and
-- leaves the whole database as it is.
pub create_payment_replays :
    (now later : ℕ) (number other : String) (i j : CreatePaymentInput) (s t : Store)
    (replayed : Bool) (r : CreatedPayment)
    → create_payment now number i s ≡ (ok (replayed, r), t)
    → j.tenant_id ≡ i.tenant_id
    → j.idempotency_key ≡ i.idempotency_key
    → leb_ℤ j.amount_minor (pos 0) ≡ false
    → create_payment later other j t ≡ (ok (true, r), t)
create_payment_replays now later number other i j s t replayed r ran tenant key positive =
    replay_of_completed later other j t r positive
      (rw (tenant, key) (returned (create_payment-Post now number i s) ran))
