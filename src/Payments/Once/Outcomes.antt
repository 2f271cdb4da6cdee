-- ===== src/Payments/Once/Outcomes.antt =====
-- packages/payments-core/src/execute.ts: retried jobs and duplicate callbacks.
use z_float_2_main.Prelude.{
  ℕ, ◌≡◌, refl, Bool, true, false, not, Option, none, some, arith, sym, Option-cases, inl, inr,
}
use mathlib.Core.Option
use mathlib.Core.Option.{some-injective}
use mathlib.Core.Path.{ap, ◌∙◌}
use Prim.Native.String.{String}
use z_float_2_main.Exec.{Exec, ok, pure, gets, or_raise, ◌>>=◌, ◌>>◌}
use z_float_2_main.Exec.Keeps.{Keeps, Keeps-then, Keeps-pure}
use z_float_2_main.Exec.Post.{
  Post, Post-bind, Post-gets, Post-raise_if, Post-or_raise, Post-pure, Post-if, Post-of_Keeps,
  Post-imp, Post-any, Post-transaction, returned, transaction_keeps,
}
use z_float_2_main.Table.{find}
use z_float_2_main.Payments.State.{
  PaymentState, queued, provider_pending, success, failed, reversed, same_state,
}
use z_float_2_main.Payments.Tables.{Payment, ProviderStatus}
use z_float_2_main.Payments.Store.{Store, in_payments, move}
use z_float_2_main.Payments.Submit.{payment_of_tenant, load_payment}
use z_float_2_main.Payments.Execute.{
  settle, apply_provider_success, has_ended, fail, apply_provider_failure, ProviderPaymentResult,
  follow, take_answer, run_payment, execute_payment,
}
use z_float_2_main.Payments.Once.{
  status_of, HasStatus, set_payment-HasStatus, enqueue_outbox-HasStatus, in_ledger-HasStatus,
  move-HasStatus, index_injective,
}

-- The payment that a known status is of.
status_cases :
    (id : ℕ) (x : PaymentState) (s : Store)
    → HasStatus id x s
    → (p : Payment) × ((find id s.payment.payments ≡ some p) × (p.status ≡ x))
unfolding status_of
status_cases id x s h = elim (Option-cases (find id s.payment.payments)) [
  | inl missing ↦ ground (arith)
  | inr (p, there) ↦
      (p, (there, some-injective _ _ (sym (ap (Option.map (λ p. p.status)) there) ∙ h)))
]

after_move :
    {A : Type 0} (id : ℕ) (x : PaymentState) (actor : Option ℕ) (rest : Exec Store A) (s : Store)
    → Keeps (HasStatus id x) rest
    → Post (λ _ t. HasStatus id x t) (in_payments (move id x actor) >> rest) s
after_move id x actor rest s k =
    Post-bind _ _ s (
      Post-imp _ s (move-HasStatus id x actor s) λ _ t h. Post-of_Keeps (HasStatus id x) rest t k h)

not-false : (b : Bool) → not b ≡ false → b ≡ true
not-false true e = refl
not-false false e = cc

ended_left : (x : PaymentState) → not (has_ended x) ≡ false → same_state x queued ≡ false
ended_left x e = ground arith

settle-Post :
    (id : ℕ) (reference : String) (p : Payment) (s : Store)
    → Post (λ _ t. HasStatus id success t) (settle id reference p) s
unfolding settle
settle-Post id reference p s = Post-bind _ _ s (
    Post-raise_if _ _ s λ _. Post-bind _ _ s (
      Post-any _ s λ r t. Post-bind _ _ t (
        Post-any _ t λ _ u. after_move id success none _ u (
          Keeps-then _ _ (set_payment-HasStatus id success id _ λ q. refl) (
            Keeps-then _ _ (in_ledger-HasStatus id success _)
              (Keeps-then _ _ (enqueue_outbox-HasStatus id success _ _ _) (Keeps-pure _)))))))

apply_provider_success-Post :
    (id : ℕ) (reference : String) (s : Store)
    → Post (λ _ t. HasStatus id success t) (apply_provider_success id reference) s
unfolding apply_provider_success status_of
apply_provider_success-Post id reference s = Post-bind _ _ s (
    Post-gets _ s (
      Post-bind _ _ s (
        Post-or_raise _ _ s λ p there.
          Post-if (same_state p.status success) (pure tt) (settle id reference p) s
            (λ same. Post-pure _ _ (rw there (ap some (index_injective p.status success same))))
            λ _. settle-Post id reference p s)))

success_again :
    (id : ℕ) (reference : String) (s : Store)
    → HasStatus id success s
    → apply_provider_success id reference s ≡ (ok tt, s)
unfolding apply_provider_success pure gets or_raise ◌>>=◌
success_again id reference s h =
    let (p, (there, is)) = status_cases id success s h in rw (there, is) refl

-- Once `applyProviderSuccess` has returned for a payment, a duplicate of it, with whatever
-- reference, returns too and leaves the whole database as it is.
pub apply_provider_success_once :
    (id : ℕ) (reference other : String) (s t : Store)
    → apply_provider_success id reference s ≡ (ok tt, t)
    → apply_provider_success id other t ≡ (ok tt, t)
apply_provider_success_once id reference other s t ran =
    success_again id other t (returned (apply_provider_success-Post id reference s) ran)

-- The payment is in a state where `P` is false.
abbrev HasLeft : ℕ → (PaymentState → Bool) → Store → Type 0
HasLeft id P s = (x : PaymentState) × (HasStatus id x s × (P x ≡ false))

abbrev not_ended : PaymentState → Bool
not_ended x = not (has_ended x)

fail-Post : (id : ℕ) (p : Payment) (s : Store) → Post (λ _ t. HasLeft id not_ended t) (fail id p) s
unfolding fail
fail-Post id p s = Post-bind _ _ s (
    Post-any _ s λ r t. Post-bind _ _ t (
      Post-any _ t λ _ u.
        Post-imp _ u
          (after_move id failed none _ u (
            Keeps-then _ _ (set_payment-HasStatus id failed id _ λ q. refl)
              (Keeps-then _ _ (enqueue_outbox-HasStatus id failed _ _ _) (Keeps-pure _))))
          λ _ v h. (failed, (h, refl))))

apply_provider_failure-Post :
    (id : ℕ) (s : Store) → Post (λ _ t. HasLeft id not_ended t) (apply_provider_failure id) s
unfolding apply_provider_failure status_of
apply_provider_failure-Post id s = Post-bind _ _ s (
    Post-gets _ s (
      Post-bind _ _ s (
        Post-or_raise _ _ s λ p there.
          Post-if (has_ended p.status) (pure tt) (fail id p) s
            (λ ended. Post-pure _ _ (p.status, (rw there refl, rw ended refl)))
            λ _. fail-Post id p s)))

failure_again :
    (id : ℕ) (s : Store) → HasLeft id not_ended s → apply_provider_failure id s ≡ (ok tt, s)
unfolding apply_provider_failure pure gets or_raise ◌>>=◌
failure_again id s (x, (h, ended)) =
    let (p, (there, is)) = status_cases id x s h in
    rw (there, is, not-false (has_ended x) ended) refl

-- Once `applyProviderFailure` has returned for a payment, a duplicate of it returns too and leaves
-- the whole database as it is.
pub apply_provider_failure_once :
    (id : ℕ) (s t : Store)
    → apply_provider_failure id s ≡ (ok tt, t)
    → apply_provider_failure id t ≡ (ok tt, t)
apply_provider_failure_once id s t ran =
    failure_again id t (returned (apply_provider_failure-Post id s) ran)

abbrev is_queued : PaymentState → Bool
is_queued x = same_state x queued

follow-Post :
    (id : ℕ) (reference : String) (status : ProviderStatus) (s : Store)
    → Post (λ _ t. HasLeft id is_queued t) (follow id reference status) s
unfolding follow
follow-Post id reference ProviderStatus.success s =
    Post-imp _ s (apply_provider_success-Post id reference s) λ _ t h. (success, (h, refl))
follow-Post id reference ProviderStatus.failed s =
    Post-imp _ s (apply_provider_failure-Post id s)
      λ _ t (x, (h, ended)). (x, (h, ended_left x ended))
follow-Post id reference ProviderStatus.reversed s =
    Post-imp _ s (move-HasStatus id reversed none s) λ _ t h. (reversed, (h, refl))
follow-Post id reference ProviderStatus.pending s =
    Post-imp _ s (move-HasStatus id provider_pending none s) λ _ t h. (provider_pending, (h, refl))
follow-Post id reference ProviderStatus.unknown s =
    Post-imp _ s (move-HasStatus id provider_pending none s) λ _ t h. (provider_pending, (h, refl))

take_answer-Post :
    (id number : ℕ) (reference : String) (answer : Option ProviderPaymentResult) (s : Store)
    → Post (λ _ t. HasLeft id is_queued t) (take_answer id number reference answer) s
unfolding take_answer
take_answer-Post id number reference none s = Post-bind _ _ s (
    Post-any _ s λ _ t.
      Post-imp _ t (move-HasStatus id provider_pending none t)
        λ _ u h. (provider_pending, (h, refl)))
take_answer-Post id number reference (some r) s =
    Post-bind _ _ s (Post-any _ s λ _ t. follow-Post id _ r.status t)

pub load_payment-Post :
    {P : Payment → Store → Type 0} (tenant id : ℕ) (s : Store)
    → ((p : Payment) → payment_of_tenant tenant (find id s.payment.payments) ≡ some p → P p s)
    → Post P (load_payment tenant id) s
unfolding load_payment
load_payment-Post tenant id s h = Post-bind _ _ s (Post-gets _ s (Post-or_raise _ _ s h))

found_of_tenant :
    (tenant : ℕ) (o : Option Payment) (p : Payment)
    → payment_of_tenant tenant o ≡ some p
    → o ≡ some p
found_of_tenant tenant none p e = cc
found_of_tenant tenant (some q) p e = ground arith

left_of :
    (p q : Payment) (x : PaymentState) (o : Option Payment)
    → o ≡ some p
    → o ≡ some q
    → p.status ≡ x
    → is_queued x ≡ false
    → is_queued q.status ≡ false
left_of p q x o this that is left =
    ap (λ r. is_queued r.status) (some-injective q p (sym that ∙ this)) ∙ (ap is_queued is ∙ left)

module _ (provider : Payment → Option ProviderPaymentResult) (tenant id number : ℕ) where
  execute_payment-Post :
      (s : Store)
      → Post (λ _ t. HasLeft id is_queued t) (execute_payment provider tenant id number) s
  unfolding execute_payment run_payment status_of
  execute_payment-Post s = Post-transaction _ s (
      Post-bind _ _ s (
        load_payment-Post tenant id s λ p there.
          Post-if (is_queued p.status) (run_payment provider id number p) (pure tt) s
            (λ _. Post-bind _ _ s (Post-any _ s λ _ t. take_answer-Post id number _ _ t))
            λ left. Post-pure _ _ (p.status, (rw (found_of_tenant tenant _ p there) refl, left))))

  execute_nothing :
      (s : Store) → HasLeft id is_queued s → (execute_payment provider tenant id number s).1 ≡ s
  unfolding execute_payment
  execute_nothing s (x, (h, left)) =
      let (p, (there, is)) = status_cases id x s h in
      transaction_keeps (λ t. t ≡ s) _ s refl
        (Post-transaction _ s (
          Post-bind _ _ s (
            load_payment-Post tenant id s λ q found.
              Post-if (is_queued q.status) (run_payment provider id number q) (pure tt) s
                (λ still.
                  let never : true ≡ false =
                    sym still
                    ∙ (left_of p q x _ there (found_of_tenant tenant _ q found) is left) in
                  cc)
                λ _. Post-pure _ _ refl)))

-- Once `executePayment` has returned for a payment, executing it again, in any attempt and with
-- whatever the provider would answer, leaves the whole database as it is.
pub execute_payment_once :
    (provider other : Payment → Option ProviderPaymentResult) (tenant id first second : ℕ)
    (s t : Store)
    → execute_payment provider tenant id first s ≡ (ok tt, t)
    → (execute_payment other tenant id second t).1 ≡ t
execute_payment_once provider other tenant id first second s t ran =
    execute_nothing other tenant id second t
      (returned (execute_payment-Post provider tenant id first s) ran)
