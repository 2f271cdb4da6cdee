-- ===== src/Ledger/Tables.antt =====
-- The rows of the ledger's tables. Display text (names, memos, notes), currencies, of which there
-- is one, and time stamps are left out: nothing in the ledger reads them.
use z_float_2_main.Prelude.{ℕ, Bool, true, false, Option, List}
use z_float_2_main.Prelude.Int.{ℤ}
use z_float_2_main.Table.{Table}

pub data WalletStatus : Type 0 where
  active frozen closed : WalletStatus

pub record Wallet : Type 0 where
  pub tenant_id : ℕ
  pub available_minor : ℤ
  pub reserved_minor : ℤ
  pub status : WalletStatus

pub data ReservationStatus : Type 0 where
  held released applied : ReservationStatus

pub record WalletReservation : Type 0 where
  pub tenant_id : ℕ
  pub payment_id : ℕ
  pub wallet_id : ℕ
  pub amount_minor : ℤ
  pub status : ReservationStatus

pub data EntryType : Type 0 where
  fund reserve reserve_denied release apply : EntryType

pub data RefType : Type 0 where
  payment funding reversal collection payment_link : RefType

pub record WalletLedgerEntry : Type 0 where
  pub tenant_id : ℕ
  pub wallet_id : ℕ
  pub entry_type : EntryType
  pub ref_type : RefType
  pub ref_id : ℕ
  pub amount_minor : ℤ
  pub delta_available_minor : ℤ
  pub delta_reserved_minor : ℤ
  pub available_after_minor : ℤ
  pub reserved_after_minor : ℤ

-- The codes of SYSTEM_CHART, and `wallet:<id>`.
pub data AccountCode : Type 0 where
  cash_wallets payment_clearing float_liability fee_revenue provider_settlement : AccountCode
  wallet : ℕ → AccountCode

pub record LedgerAccount : Type 0 where
  pub tenant_id : ℕ
  pub wallet_id : Option ℕ
  pub code : AccountCode
  pub posted_balance_minor : ℤ

pub record Journal : Type 0 where
  pub tenant_id : ℕ
  pub reference_type : RefType
  pub reference_id : ℕ
  pub created_by_id : Option ℕ

pub record JournalEntry : Type 0 where
  pub journal_id : ℕ
  pub ledger_account_id : ℕ
  pub debit_minor : ℤ
  pub credit_minor : ℤ

pub record BalanceSnapshot : Type 0 where
  pub ledger_account_id : ℕ
  pub balance_minor : ℤ

-- `next_id` stands for the fresh identifiers that the database draws.
pub record LedgerDb : Type 0 where
  pub next_id : ℕ
  pub wallets : Table Wallet
  pub wallet_reservations : Table WalletReservation
  pub wallet_ledger_entries : List WalletLedgerEntry
  pub ledger_accounts : Table LedgerAccount
  pub journals : Table Journal
  pub journal_entries : List JournalEntry
  pub balance_snapshots : List BalanceSnapshot

abbrev pub is_held : ReservationStatus → Bool
is_held held = true
is_held released = false
is_held applied = false
