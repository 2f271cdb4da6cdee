-- ===== src/Payments/Outbox/Tests.antt =====
-- A run of the outbox with two events, the handler of one of which fails.
use z_float_2_main.Prelude.{ℕ, zero, suc, not, ◌==◌, true, none, List, [], ◌∷◌}
use z_float_2_main.Payments.Tables.{PaymentDb, OutboxEvent, queued, funded}
use z_float_2_main.Payments.Tests.{genesis}
use z_float_2_main.Payments.Outbox.{Tick}

abbrev event : OutboxEvent
event = record {
  event_type = queued;
  aggregate_id = 20;
  tenant_id = 7;
  attempts = 0;
  published_at = none;
}

abbrev busy : PaymentDb
busy = record genesis.payment {
  outbox_events = (31, record event { event_type = funded }) ∷ (30, event) ∷ [];
}

-- The handler of the event 30 always fails.
abbrev tick : ℕ → Tick
tick now = record { now = now; acquired = true; handle = λ id e. not (id == 30) }

abbrev repeated : ℕ → List Tick
repeated zero = []
repeated (suc n) = tick n ∷ repeated n
