-- ===== src/Payments/Store.antt =====
-- The whole database, and the moves of a payment in it (packages/payments-core/src/state.ts,
-- outbox.ts).
use z_float_2_main.Prelude.{ℕ, ◌+◌, Bool, false, not, Option, none, some, ◌∷◌, ◌==◌, if◌then◌else◌}
use z_float_2_main.Exec.{
  Exec, pure, gets, modify, raise_if, or_raise, ◌>>=◌, ◌>>◌, zoom, payment_not_found,
  modified_concurrently, illegal_transition,
}
use z_float_2_main.Table.{find, update}
use z_float_2_main.Ledger.Tables.{LedgerDb}
use z_float_2_main.Approvals.Service.{ApprovalDb}
use z_float_2_main.Payments.State.{PaymentState, same_state, can_transition}
use z_float_2_main.Payments.Tables.{
  PaymentDb, Payment, PaymentStatusHistory, EventType, OutboxEvent,
}

pub record Store : Type 0 where
  pub payment : PaymentDb
  pub ledger : LedgerDb
  pub approval : ApprovalDb

module _ {A : Type 0} where
  unfoldable pub in_payments : Exec PaymentDb A → Exec Store A
  in_payments = zoom (λ s. s.payment) (λ s t. record s { payment = t })

  unfoldable pub in_ledger : Exec LedgerDb A → Exec Store A
  in_ledger = zoom (λ s. s.ledger) (λ s t. record s { ledger = t })

  unfoldable pub in_approvals : Exec ApprovalDb A → Exec Store A
  in_approvals = zoom (λ s. s.approval) (λ s t. record s { approval = t })

pub record TransitionInput : Type 0 where
  pub payment_id : ℕ
  pub to : PaymentState
  pub actor_id : Option ℕ

abbrev pub history_of : TransitionInput → PaymentState → PaymentStatusHistory
history_of i from = record {
  payment_id = i.payment_id;
  from_status = some from;
  to_status = i.to;
  actor_id = i.actor_id;
}

abbrev pub move_to : PaymentState → ℕ → Payment → Payment
move_to to version p = record p { status = to; version = version + 1 }

-- The two writes of a transition, of a payment that was read as `p`.
abbrev pub write_transition : TransitionInput → Payment → PaymentDb → PaymentDb
write_transition i p s = record s {
  payment_status_history = history_of i p.status ∷ s.payment_status_history;
  payments = update i.payment_id (move_to i.to p.version) s.payments;
}

abbrev version_differs : Option ℕ → ℕ → Bool
version_differs none version = false
version_differs (some expected) version = not (version == expected)

-- `transitionPayment`
unfoldable pub transition_payment : TransitionInput → Option ℕ → Exec PaymentDb (Unit {0})
transition_payment i expected = do
  found ← gets (λ s. find i.payment_id s.payments)
  p ← or_raise payment_not_found found
  raise_if (version_differs expected p.version) modified_concurrently
  raise_if (not (can_transition p.status i.to)) illegal_transition
  if same_state p.status i.to then pure tt else modify (write_transition i p)

abbrev pub move : ℕ → PaymentState → Option ℕ → Exec PaymentDb (Unit {0})
move id to actor = transition_payment (record { payment_id = id; to = to; actor_id = actor }) none

abbrev pub add_event : OutboxEvent → PaymentDb → PaymentDb
add_event e s = record s {
  next_id = s.next_id + 1;
  outbox_events = (s.next_id, e) ∷ s.outbox_events;
}

-- `enqueueOutbox`
unfoldable pub enqueue_outbox : EventType → ℕ → ℕ → Exec PaymentDb ℕ
enqueue_outbox type aggregate tenant = do
  id ← gets (λ s. s.next_id)
  modify (
      add_event (record {
        event_type = type;
        aggregate_id = aggregate;
        tenant_id = tenant;
        attempts = 0;
        published_at = none;
      }))
  pure id

-- UPDATE payments, of columns other than the status.
unfoldable pub set_payment : ℕ → (Payment → Payment) → Exec PaymentDb (Unit {0})
set_payment id f = modify (λ s. record s { payments = update id f s.payments })
