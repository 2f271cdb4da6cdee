-- ===== src/Ledger.antt =====
-- packages/ledger/src: the tables that the ledger package reads and writes
-- (packages/database/src/schema/index.ts), and the triggers on them
-- (packages/database/custom-migrations/001_ledger_integrity.sql, 011_wallet_ledger.sql).
pub mod Tables
pub mod Wallet
pub mod Reservation
pub mod Journal
pub mod Moves
pub mod Sound
pub mod Books
pub mod Postings
pub mod Health
pub mod Healthy
pub mod Tests
pub mod Vault
