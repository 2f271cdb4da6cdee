-- ===== src/Payments/Once.antt =====
-- The status of a payment under the statements of packages/payments-core.
pub mod Outcomes
use z_float_2_main.Prelude.{
  ℕ, ◌≡◌, refl, Bool, true, false, not, ◌||◌, Option, none, some, if◌then◌else◌, ◌==◌, arith, sym,
  Option-cases, inl, inr, ==_iff,
}
use z_float_2_main.Prelude.Int.{ℤ}
use Prim.Native.String.{String}
use mathlib.Core.Option
use mathlib.Core.Path.{ap, ◌∙◌}
use z_float_2_main.Exec.{
  Exec, ok, err, pure, gets, transaction, modify, or_raise, raise_if, ◌>>=◌, ◌>>◌,
}
use z_float_2_main.Exec.Keeps.{
  Keeps, Keeps-modify, Keeps-bind, Keeps-then, Keeps-gets, Keeps-pure, Keeps-zoom, keeps_rules,
}
use z_float_2_main.Exec.Post.{
  Post, Post-bind, Post-gets, Post-raise_if, Post-or_raise, Post-pure, Post-modify, Post-if,
  Post-of_Keeps, Post-imp, Post-transaction, Post-zoom, returned,
}
use z_float_2_main.Table.{find, update, find-update}
use z_float_2_main.Ledger.Tables.{LedgerDb}
use z_float_2_main.Payments.State.{
  PaymentState, draft, validating, pending_approval, approved, rejected, queued, processing,
  provider_pending, success, failed, reversed, cancelled, same_state, index,
}
use z_float_2_main.Payments.Tables.{PaymentDb, Payment, EventType, ProviderStatus}
use z_float_2_main.Payments.Store.{
  Store, in_payments, in_ledger, move, move_to, transition_payment, write_transition,
  TransitionInput, enqueue_outbox, set_payment,
}

-- The status of a payment.
unfoldable pub status_of : ℕ → PaymentDb → Option PaymentState
status_of id s = Option.map (λ p. p.status) (find id s.payments)

abbrev pub HasStatus : ℕ → PaymentState → Store → Type 0
HasStatus id x s = status_of id s.payment ≡ some x

-- The state at a place of PAYMENT_STATES.
abbrev state_at : ℕ → PaymentState
state_at n =
    if n == 0
    then draft
    else if n == 1
    then validating
    else if n == 2
    then pending_approval
    else if n == 3
    then approved
    else if n == 4
    then rejected
    else if n == 5
    then queued
    else if n == 6
    then processing
    else if n == 7
    then provider_pending
    else if n == 8
    then success
    else if n == 9
    then failed
    else if n == 10
    then reversed
    else cancelled

state_at-index : (a : PaymentState) → state_at (index a) ≡ a
state_at-index draft = refl
state_at-index validating = refl
state_at-index pending_approval = refl
state_at-index approved = refl
state_at-index rejected = refl
state_at-index queued = refl
state_at-index processing = refl
state_at-index provider_pending = refl
state_at-index success = refl
state_at-index failed = refl
state_at-index reversed = refl
state_at-index cancelled = refl

pub index_injective : (a b : PaymentState) → same_state a b ≡ true → a ≡ b
index_injective a b e =
    sym (state_at-index a) ∙ (ap state_at ((==_iff (index a) (index b)).0 e) ∙ state_at-index b)

write_transition-status_of :
    (i : TransitionInput) (p : Payment) (s : PaymentDb)
    → find i.payment_id s.payments ≡ some p
    → status_of i.payment_id (write_transition i p s) ≡ some i.to
unfolding status_of
write_transition-status_of i p s there =
    ground (arith, find-update i.payment_id i.payment_id (move_to i.to p.version) s.payments)

status_there :
    (i : TransitionInput) (p : Payment) (s : PaymentDb)
    → find i.payment_id s.payments ≡ some p
    → same_state p.status i.to ≡ true
    → status_of i.payment_id s ≡ some i.to
unfolding status_of
status_there i p s there same = rw there (ap some (index_injective p.status i.to same))

-- A transition that returns leaves the payment in the state that it was asked for.
pub transition_payment-status_of :
    (i : TransitionInput) (expected : Option ℕ) (s : PaymentDb)
    → Post (λ _ t. status_of i.payment_id t ≡ some i.to) (transition_payment i expected) s
unfolding transition_payment
transition_payment-status_of i expected s = Post-bind _ _ s (
    Post-gets _ s (
      Post-bind _ _ s (
        Post-or_raise _ _ s λ p there. Post-bind _ _ s (
          Post-raise_if _ _ s λ _. Post-bind _ _ s (
            Post-raise_if _ _ s λ _.
              Post-if (same_state p.status i.to) (pure tt) (modify (write_transition i p)) s
                (λ same. Post-pure _ _ (status_there i p s there same))
                λ _. Post-modify _ s (write_transition-status_of i p s there))))))

module _ (id : ℕ) (x : PaymentState) where
  pub set_payment-HasStatus :
      (j : ℕ) (f : Payment → Payment)
      → ((p : Payment) → (f p).status ≡ p.status)
      → Keeps (HasStatus id x) (in_payments (set_payment j f))
  unfolding in_payments set_payment status_of
  set_payment-HasStatus j f same =
      Keeps-zoom {Q = λ s. status_of id s ≡ some x} _ _ _ (λ s h. h) (λ s t h k. k)
        (Keeps-modify _ λ s h. elim (Option-cases (find id s.payments)) [
          | inl missing ↦ ground (arith, find-update id j f s.payments)
          | inr (q, there) ↦ ground (arith, find-update id j f s.payments, same q)
        ])

  pub enqueue_outbox-HasStatus :
      (type : EventType) (aggregate tenant : ℕ)
      → Keeps (HasStatus id x) (in_payments (enqueue_outbox type aggregate tenant))
  unfolding in_payments enqueue_outbox status_of
  enqueue_outbox-HasStatus type aggregate tenant =
      Keeps-zoom {Q = λ s. status_of id s ≡ some x} _ _ _ (λ s h. h) (λ s t h k. k)
        (Keeps-bind _ _ (Keeps-gets _) λ n. Keeps-then _ _ (Keeps-modify _ λ s h. h) (Keeps-pure _))

  pub in_ledger-HasStatus :
      {A : Type 0} (m : Exec LedgerDb A) → Keeps (HasStatus id x) (in_ledger m)
  unfolding in_ledger
  in_ledger-HasStatus m =
      Keeps-zoom {Q = λ _. Unit} _ _ m (λ s h. tt) (λ s t h k. h) (record { at = λ s h. tt })

  pub move-HasStatus :
      (actor : Option ℕ) (s : Store)
      → Post (λ _ t. HasStatus id x t) (in_payments (move id x actor)) s
  unfolding in_payments
  move-HasStatus actor s = Post-zoom _ _ _ s (
      transition_payment-status_of (record { payment_id = id; to = x; actor_id = actor }) none
        s.payment)
