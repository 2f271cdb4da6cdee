-- ===== src/Payments/Resubmit.antt =====
-- packages/payments-core/src/payments.ts, `submitPayment`: which payments can be submitted.
use z_float_2_main.Prelude.{ℕ, ◌≡◌, refl, Bool, false, ◌||◌, Option, none, some, List, sym}
use mathlib.Core.Path.{subst, ap}
use Prim.Native.String.{String}
use z_float_2_main.Exec.{err, illegal_transition, gets, or_raise, raise_if, ◌>>=◌, zoom}
use z_float_2_main.Exec.Keeps.{Keeps, Keeps-zoom, keeps_rules}
use z_float_2_main.Exec.Post.{
  Post, OnOk, Post-bind, Post-raise_if, Post-or_raise, Post-imp, Post-of_Keeps, transaction_ends,
}
use z_float_2_main.Table.{find}
use z_float_2_main.Approvals.Policy.{ApprovalRule}
use z_float_2_main.Payments.State.{
  PaymentState, draft, validating, pending_approval, approved, rejected, queued, processing,
  provider_pending, success, failed, reversed, cancelled, same_state, can_transition, transitions,
}
use z_float_2_main.Payments.Tables.{PaymentDb, Payment}
use z_float_2_main.Payments.Store.{Store, in_payments, move, transition_payment}
use z_float_2_main.Payments.Submit.{PaymentInput, assert_payee_approved, submit_payment}
use z_float_2_main.Payments.Once.Outcomes.{load_payment-Post}

abbrev pub can_validate : PaymentState → Bool
can_validate x = same_state x draft || same_state x validating

no_move_to_validating :
    (x : PaymentState) → can_validate x ≡ false → can_transition x validating ≡ false
unfolding can_transition transitions
no_move_to_validating draft e = e
no_move_to_validating validating e = e
no_move_to_validating pending_approval e = refl
no_move_to_validating approved e = refl
no_move_to_validating rejected e = refl
no_move_to_validating queued e = refl
no_move_to_validating processing e = refl
no_move_to_validating provider_pending e = refl
no_move_to_validating success e = refl
no_move_to_validating failed e = refl
no_move_to_validating reversed e = refl
no_move_to_validating cancelled e = refl

-- A move that the table of transitions does not have throws, and writes nothing.
illegal_move :
    (id : ℕ) (to : PaymentState) (actor : Option ℕ) (s : Store) (p : Payment)
    → find id s.payment.payments ≡ some p
    → can_transition p.status to ≡ false
    → in_payments (move id to actor) s ≡ (err illegal_transition, s)
unfolding in_payments zoom transition_payment gets or_raise raise_if ◌>>=◌
illegal_move id to actor s p there illegal = rw (there, illegal) refl

illegal_move-Post :
    {P : Unit {0} → Store → Type 0} (id : ℕ) (to : PaymentState) (actor : Option ℕ) (s : Store)
    (p : Payment)
    → find id s.payment.payments ≡ some p
    → can_transition p.status to ≡ false
    → Post P (in_payments (move id to actor)) s
illegal_move-Post {P = P} id to actor s p there illegal = record {
  at = subst (OnOk P) (sym (illegal_move id to actor s p there illegal)) tt;
}

assert_payee_approved-Keeps :
    (tenant : ℕ) (id : Option ℕ) (s : PaymentDb)
    → Keeps (λ t. t ≡ s) (assert_payee_approved tenant id)
unfolding assert_payee_approved
assert_payee_approved-Keeps tenant none s = search keeps_rules
assert_payee_approved-Keeps tenant (some id) s = search keeps_rules

gate-Keeps :
    (tenant : ℕ) (id : Option ℕ) (s : Store)
    → Keeps (λ t. t ≡ s) (in_payments (assert_payee_approved tenant id))
unfolding in_payments
gate-Keeps tenant id s =
    Keeps-zoom {Q = λ t. t ≡ s.payment} _ _ _ (λ t h. ap (λ u. u.payment) h)
      (λ t u h k. rw (h, k) refl) (assert_payee_approved-Keeps tenant id s.payment)

-- Submitting a payment that is neither a draft nor being validated leaves the whole database as it
-- is: a payment that was rejected, or that failed, is not resubmitted.
pub submit_payment_refused :
    (screen : ℕ → String → Bool) (rules : List ApprovalRule) (i : PaymentInput) (s : Store)
    (p : Payment)
    → find i.payment_id s.payment.payments ≡ some p
    → can_validate p.status ≡ false
    → (submit_payment screen rules i s).1 ≡ s
unfolding submit_payment
submit_payment_refused screen rules i s p there ended =
    transaction_ends (λ t. t ≡ s) _ s refl
      (Post-bind _ _ s (
        load_payment-Post i.tenant_id i.payment_id s λ q found. Post-bind _ _ s (
          Post-raise_if _ _ s λ _. Post-bind _ _ s (
            Post-or_raise _ _ s λ w _. Post-bind _ _ s (
              Post-imp _ s
                (Post-of_Keeps (λ t. t ≡ s) _ s (gate-Keeps i.tenant_id q.beneficiary_id s) refl)
                λ _ t same. Post-bind _ _ t (
                  illegal_move-Post i.payment_id validating (some i.actor_id) t p (rw same there)
                    (no_move_to_validating p.status ended)))))))
