-- ===== src/Payments/Outbox.antt =====
-- packages/payments-core/src/outbox.ts and outbox-relay.ts: publishing the events of the outbox.
pub mod Drains
pub mod Rows
mod Tests
use z_float_2_main.Prelude.{
  ℕ, ◌+◌, Bool, true, false, not, ◌&&◌, Option, none, some, List, [], ◌∷◌, ltb, if◌then◌else◌, keep,
  take, reverse,
}
use z_float_2_main.Exec.{Exec, pure, gets, modify, transaction, ◌>>=◌, ◌>>◌}
use z_float_2_main.Table.{Table, update}
use z_float_2_main.Payments.Tables.{PaymentDb, OutboxEvent}

abbrev pub set_published : ℕ → OutboxEvent → OutboxEvent
set_published now e = record e { published_at = some now }

abbrev pub add_attempt : OutboxEvent → OutboxEvent
add_attempt e = record e { attempts = e.attempts + 1 }

-- UPDATE outbox_events
unfoldable pub set_event : ℕ → (OutboxEvent → OutboxEvent) → PaymentDb → PaymentDb
set_event id f s = record s { outbox_events = update id f s.outbox_events }

-- `markPublished`
unfoldable pub mark_published : ℕ → ℕ → Exec PaymentDb (Unit {0})
mark_published now id = modify (set_event id (set_published now))

-- `markFailed`
unfoldable pub mark_failed : ℕ → Exec PaymentDb (Unit {0})
mark_failed id = modify (set_event id add_attempt)

abbrev pub is_unpublished : Option ℕ → Bool
is_unpublished none = true
is_unpublished (some at) = false

-- Not published, and tried less than ten times.
abbrev pub is_due : OutboxEvent → Bool
is_due e = is_unpublished e.published_at && ltb e.attempts 10

-- `pullUnpublished`: the oldest first.
unfoldable pub pull_unpublished : ℕ → Exec PaymentDb (Table OutboxEvent)
pull_unpublished limit = gets (λ s. take limit (reverse (keep (λ r. is_due r.1) s.outbox_events)))

pub record OutboxBatchResult : Type 0 where
  pub dispatched : ℕ
  pub failed : ℕ

abbrev pub no_events : OutboxBatchResult
no_events = record { dispatched = 0; failed = 0 }

abbrev pub counted : Bool → OutboxBatchResult → OutboxBatchResult
counted true r = record r { dispatched = r.dispatched + 1 }
counted false r = record r { failed = r.failed + 1 }

-- `handle` tells whether the handler of an event returns; what it writes, it writes elsewhere.
module _ (now : ℕ) (handle : ℕ → OutboxEvent → Bool) where
  -- One round of the loop.
  unfoldable pub dispatch : ℕ → Bool → Exec PaymentDb (Unit {0})
  dispatch id true = mark_published now id
  dispatch id false = mark_failed id

  unfoldable pub dispatch_all : Table OutboxEvent → Exec PaymentDb OutboxBatchResult
  dispatch_all [] = pure no_events
  dispatch_all ((id, e) ∷ events) = do
    dispatch id (handle id e)
    r ← dispatch_all events
    pure (counted (handle id e) r)

  -- `processOutboxBatch`
  unfoldable pub process_outbox_batch : ℕ → Exec PaymentDb OutboxBatchResult
  process_outbox_batch limit = do events ← pull_unpublished limit; dispatch_all events

  -- `dispatchOutboxTick`; `acquired` tells whether the tick got the lease. None is a tick that was
  -- skipped.
  unfoldable pub dispatch_outbox_tick : Bool → ℕ → Exec PaymentDb (Option OutboxBatchResult)
  dispatch_outbox_tick false limit = transaction (pure none)
  dispatch_outbox_tick true limit = transaction (do r ← process_outbox_batch limit; pure (some r))

-- A tick of `runOutboxPoller`, with the time, the lease, and what the handlers do.
pub record Tick : Type 0 where
  pub now : ℕ
  pub acquired : Bool
  pub handle : ℕ → OutboxEvent → Bool

-- The ticks of a poller, in turn.
unfoldable pub poll : ℕ → List Tick → PaymentDb → PaymentDb
poll limit [] s = s
poll limit (t ∷ ticks) s =
    poll limit ticks (dispatch_outbox_tick t.now t.handle t.acquired limit s).1

-- How many ticks got the lease.
abbrev pub won : List Tick → ℕ
won [] = 0
won (t ∷ ticks) = if t.acquired then won ticks + 1 else won ticks
