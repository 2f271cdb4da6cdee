-- ===== src/Ledger/Health.antt =====
-- packages/ledger/src/health.ts: the check of the double-entry books, for one tenant.
use z_float_2_main.Prelude.{ℕ, ◌+◌, Bool, ◌&&◌, List, [], ◌∷◌, ◌==◌, if◌then◌else◌, any}
use z_float_2_main.Prelude.Int.{ℤ, pos, ◌+ℤ◌, eqb_ℤ}
use z_float_2_main.Table.{Table}
use z_float_2_main.Ledger.Tables.{LedgerDb, Journal, JournalEntry}
use z_float_2_main.Ledger.Books.{debits, credits}

pub record TenantLedgerHealth : Type 0 where
  pub journals_checked : ℕ
  pub unbalanced_journals : ℕ
  pub total_debit_minor : ℤ
  pub total_credit_minor : ℤ

-- The sums of a journal that has entries: the rows of the query, grouped by the journal.
unfoldable pub journal_sums : ℕ → Table Journal → List JournalEntry → List (ℤ × ℤ)
journal_sums tenant [] es = []
journal_sums tenant ((id, j) ∷ t) es =
    if j.tenant_id == tenant && any (λ e. id == e.journal_id) es
    then (debits id es, credits id es) ∷ journal_sums tenant t es
    else journal_sums tenant t es

abbrev add_row : ℤ × ℤ → TenantLedgerHealth → TenantLedgerHealth
add_row (d, c) t = record {
  journals_checked = t.journals_checked + 1;
  unbalanced_journals = if eqb_ℤ d c then t.unbalanced_journals else t.unbalanced_journals + 1;
  total_debit_minor = t.total_debit_minor +ℤ d;
  total_credit_minor = t.total_credit_minor +ℤ c;
}

-- The loop over the rows.
unfoldable pub tally : TenantLedgerHealth → List (ℤ × ℤ) → TenantLedgerHealth
tally t [] = t
tally t (r ∷ rows) = tally (add_row r t) rows

abbrev no_rows : TenantLedgerHealth
no_rows = record {
  journals_checked = 0;
  unbalanced_journals = 0;
  total_debit_minor = pos 0;
  total_credit_minor = pos 0;
}

-- `checkLedgerHealth` of a tenant.
unfoldable pub check_ledger_health : ℕ → LedgerDb → TenantLedgerHealth
check_ledger_health tenant s = tally no_rows (journal_sums tenant s.journals s.journal_entries)

abbrev pub net_zero : TenantLedgerHealth → Bool
net_zero t = eqb_ℤ t.total_debit_minor t.total_credit_minor

-- The field `healthy` of the report.
abbrev pub is_healthy : TenantLedgerHealth → Bool
is_healthy t = t.unbalanced_journals == 0 && net_zero t

abbrev pub is_balanced : ℤ × ℤ → Bool
is_balanced (d, c) = eqb_ℤ d c
