-- ===== src/Payments/Consistent.antt =====
-- The invariant of the whole database, and what the parts' commands keep of it.
pub mod Deposits
pub mod Outcomes
pub mod Submit
use z_float_2_main.Prelude.{ℕ, ◌≡◌, refl, Option, none, some}
use z_float_2_main.Prelude.Int.{ℤ}
use z_float_2_main.Exec.{Exec, gets, modify, ◌>>=◌, ◌>>◌}
use z_float_2_main.Exec.Keeps.{
  Keeps, Keeps-modify, Keeps-bind, Keeps-then, Keeps-gets, Keeps-zoom, Keeps-or_raise, keeps_rules,
}
use z_float_2_main.Ledger.Tables.{LedgerDb}
use z_float_2_main.Ledger.Healthy.{IsHealthy}
use z_float_2_main.Approvals.Service.{ApprovalDb}
use z_float_2_main.Approvals.Service.Laws.{HasFourEyes}
use z_float_2_main.Payments.Tables.{PaymentDb, Payment, EventType}
use z_float_2_main.Payments.State.{PaymentState}
use z_float_2_main.Payments.Store.{
  Store, in_payments, in_ledger, in_approvals, move, enqueue_outbox, set_payment,
}
use z_float_2_main.Payments.Trace.{
  IsTraced, transition_payment-Keeps, enqueue_outbox-IsTraced, set_payment-IsTraced,
}

module _ (opening : ℕ → ℤ) where
  -- Payments have their trails, the ledger is healthy, and makers do not check.
  pub record IsConsistent (s : Store) : Type 0 where
    pub traced : IsTraced s.payment
    pub healthy : IsHealthy opening s.ledger
    pub four_eyes : HasFourEyes s.approval

  module _ {A : Type 0} where
    pub in_payments-Keeps :
        (m : Exec PaymentDb A) → Keeps IsTraced m → Keeps IsConsistent (in_payments m)
    unfolding in_payments
    in_payments-Keeps m k =
        Keeps-zoom _ _ m (λ s h. h.traced)
          (λ s t h k. record { traced = k; healthy = h.healthy; four_eyes = h.four_eyes }) k

    pub in_ledger-Keeps :
        (m : Exec LedgerDb A) → Keeps (IsHealthy opening) m → Keeps IsConsistent (in_ledger m)
    unfolding in_ledger
    in_ledger-Keeps m k =
        Keeps-zoom _ _ m (λ s h. h.healthy)
          (λ s t h k. record { traced = h.traced; healthy = k; four_eyes = h.four_eyes }) k

    pub in_approvals-Keeps :
        (m : Exec ApprovalDb A) → Keeps HasFourEyes m → Keeps IsConsistent (in_approvals m)
    unfolding in_approvals
    in_approvals-Keeps m k =
        Keeps-zoom _ _ m (λ s h. h.four_eyes)
          (λ s t h k. record { traced = h.traced; healthy = h.healthy; four_eyes = k }) k

  pub move-Keeps :
      (id : ℕ) (to : PaymentState) (actor : Option ℕ)
      → Keeps IsConsistent (in_payments (move id to actor))
  move-Keeps id to actor = in_payments-Keeps _ (transition_payment-Keeps _ none)

  pub set_payment-Keeps :
      (id : ℕ) (f : Payment → Payment)
      → ((p : Payment) → (f p).status ≡ p.status)
      → Keeps IsConsistent (in_payments (set_payment id f))
  set_payment-Keeps id f same = in_payments-Keeps _ (set_payment-IsTraced id f same)

  pub enqueue_outbox-Keeps :
      (type : EventType) (aggregate tenant : ℕ)
      → Keeps IsConsistent (in_payments (enqueue_outbox type aggregate tenant))
  enqueue_outbox-Keeps type aggregate tenant =
      in_payments-Keeps _ (enqueue_outbox-IsTraced type aggregate tenant)

pub ruleset step_rules = (move-Keeps, enqueue_outbox-Keeps)
