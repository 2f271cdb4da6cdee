-- ===== src/Collections.antt =====
-- Money that comes in: packages/payments-core/src/collections.ts, with its callbacks.
pub mod Request
pub mod Settle
pub mod Reachable
pub mod Tables
mod Tests
pub mod Webhooks
pub mod Monitor
