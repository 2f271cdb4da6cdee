-- ===== src/Lib.antt =====
-- Z-float moves money for tenants: payments are created, approved by others than their maker, paid
-- from wallets through providers, and booked in a double-entry ledger; customers pay into the
-- wallets by collections, against tax documents. This library models the part of it that decides:
-- the packages ledger, approvals and payments-core, with the tables that they share, the arithmetic
-- of the packages etims, money and validation, and the circuit breaker of the package providers.
--
-- How the parts interact. createPayment (packages/payments-core/src/payments.ts) writes a draft
-- under an idempotency key. submitPayment asks the policy (packages/approvals/src/policy.ts), with
-- the rules that tenant-policy.ts loads, whether others must approve; if so it raises a request
-- (packages/approvals/src/service.ts), else it reserves the funds (packages/ledger/src/wallet.ts)
-- and queues the payment. executePayment (packages/payments-core/src/execute.ts) calls the provider
-- and applies its outcome: the reservation is applied or released, the payment moves (state.ts),
-- journals are posted (packages/ledger/src/ledger.ts). Callbacks of the provider (webhooks.ts) and
-- the monitor of payments that wait (monitor.ts) apply the same outcomes. requestReversal
-- (reversal.ts) takes a payment back. requestStkCollection (collections.ts) asks a customer to pay;
-- a callback settles the collection, which credits the wallet and marks the document
-- (packages/etims/src/service.ts) as paid. Each of these commands leaves events in the outbox
-- (outbox.ts), which outbox-relay.ts publishes.
--
-- Files:
--   Prelude, Prelude/Tests, Prelude/Int, Prelude/Lists: shared names, Boolean tests, bigint as ℤ, lists.
--   Exec: a command is a function from a state to a result and a state; a throw keeps what was written,
--     and `transaction` (db.transaction) takes it back. Exec/Keeps, Exec/Post and Exec/Ends have the
--     rules for invariants, for what holds when a command returns, and for where a run ends.
--   Table: tables by primary key; find, find_where and update are SELECT and UPDATE.
--   Text: a string where characters count, as a list of their codes, with trim, BigInt and toString.
--   Phone: packages/validation/src/phone.ts.
--   Money (with Digits, RoundTrip): parseMinor and minorToDecimalString of packages/money/src/money.ts;
--     Payments/Fees has percentFloor.
--   Ledger/Tables, Wallet, Reservation, Journal: packages/ledger/src/wallet.ts and ledger.ts, with the
--     triggers of packages/database/custom-migrations/001_ledger_integrity.sql and 011_wallet_ledger.sql
--     as checks at the writes that they guard. reserveFunds is reserve_funds, postJournal is
--     post_journal, and so on: a function has the source's name in lower case with underscores.
--     Ledger/Health is health.ts, of one tenant.
--     Ledger/Moves (with Moves/Granted), Sound, Books, Postings, Healthy have their invariants.
--     Ledger/Vault says what wallets and reservations promise, without tables: purses, holds and four
--     actions; Vault/View reads a vault off the tables, Vault/Commands and Vault/Runs compare the two.
--   Approvals/Policy, Service, TenantPolicy: policy.ts, service.ts and tenant-policy.ts of
--     packages/approvals/src, with Laws below each.
--   Payments/State, Tables, Fees, Store, Commands, Submit, Funding, Execute, Reversal, Outbox, Bulk:
--     state.ts, fees.ts, outbox.ts, payments.ts, execute.ts, reversal.ts, outbox-relay.ts and bulk.ts of
--     packages/payments-core/src, and assertPayeeApproved of beneficiaries.ts. Payments/Trace, Consistent,
--     Once, Gate, Resubmit, Reachable, Commands/Replay and Outbox/Rows, Outbox/Drains, Bulk/Laws have the
--     theorems.
--   Collections/Tables, Request, Settle, Webhooks, Monitor: collections.ts, webhooks.ts and monitor.ts of
--     packages/payments-core/src, with Laws below each; Collections/Settle/Once is about repeated
--     callbacks, and Collections/Reachable about sequences of all the commands.
--   Etims, Etims/Tax, Etims/Tax/Document: packages/etims/src/service.ts (applyInvoicePayment) and tax.ts.
--     Etims/Tax/Laws, Document/Totals and Document/Sound have the theorems.
--   Providers/Breaker: packages/providers/src/circuit-breaker.ts, and its laws.
--   The modules called Tests: runs on small databases and inputs.
--
-- Conventions. A table is a list of rows with their keys, the newest first; `next_id` stands for
-- the fresh identifiers of the database. A function that reads a row and goes on is split where the
-- source has a condition. Amounts are bigint, here integers without bound; the amounts of a
-- computed tax line and of a document, which the code stores as decimal texts, are the numbers
-- here. The clock, the drawn payment number, the lease of a tick, the verdict of the watchlist
-- (packages/kyc), the answers of providers and whether a handler throws are arguments. One command
-- runs at a time: the row locks (SELECT … FOR UPDATE) and the transactions of the source make the
-- commands on a row serial.
--
-- Fuel. getWalletLedgerAccount calls itself once, when another writer created the account in
-- between; `calls` is 2, which is enough, since without other writers the first call returns or
-- throws. The digits of a number n are drawn on fuel n + 1, which is enough, since each step
-- divides by ten.
--
-- Not modelled: text and time stamps that no branch reads; amounts that are floating-point numbers;
-- the other parts of payments-core (the submission and the payments of a batch, schedules, links,
-- reconciliation, the paybill confirmations and bank transfers of collections, which upper-case
-- text of any alphabet); the issue of tax documents over HTTP; platform-config.ts of approvals; the
-- providers' adapters, kyc, auth and the rest of the packages; the web application and the workers,
-- which call these commands.
pub mod Approvals
pub mod Collections
pub mod Etims
pub mod Exec
pub mod Ledger
pub mod Money
pub mod Payments
pub mod Phone
pub mod Prelude
pub mod Providers
pub mod Table
pub mod Text
