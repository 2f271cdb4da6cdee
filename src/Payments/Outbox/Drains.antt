-- ===== src/Payments/Outbox/Drains.antt =====
-- The outbox runs empty (packages/payments-core/src/outbox-relay.ts).
use z_float_2_main.Prelude.{ℕ, Bool, [], ◌∷◌}
use z_float_2_main.Table.{Table}
use z_float_2_main.Payments.Tables.{PaymentDb, OutboxEvent}
use z_float_2_main.Payments.Outbox.Rows.{mark}

with_rows : Table OutboxEvent → PaymentDb → PaymentDb
with_rows rows s = record s { outbox_events = rows }

module _ (now : ℕ) (handle : ℕ → OutboxEvent → Bool) where
  abbrev mark_all : Table OutboxEvent → Table OutboxEvent → Table OutboxEvent
  mark_all [] rows = rows
  mark_all ((id, e) ∷ events) rows = mark_all events (mark now id (handle id e) rows)
