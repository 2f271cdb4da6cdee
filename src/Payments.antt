-- ===== src/Payments.antt =====
-- packages/payments-core: payments, from the draft to the outcome.
pub mod State
pub mod Tables
pub mod Fees
pub mod Store
pub mod Bulk
pub mod Commands
pub mod Submit
pub mod Execute
pub mod Reversal
pub mod Funding
pub mod Trace
pub mod Consistent
pub mod Outbox
pub mod Once
pub mod Gate
pub mod Resubmit
pub mod Reachable
pub mod Tests
