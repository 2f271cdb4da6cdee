-- ===== src/Ledger/Journal.antt =====
-- packages/ledger/src/ledger.ts and the journals of wallet.ts: double-entry postings.
use z_float_2_main.Prelude.{
  ℕ, ◌+◌, Bool, true, false, not, ◌&&◌, Option, none, some, List, [], ◌∷◌, ◌++◌, zero, suc, ◌==◌,
  if◌then◌else◌, any,
}
use z_float_2_main.Prelude.Int.{ℤ, pos, ◌+ℤ◌, ◌-ℤ◌, ltb_ℤ, leb_ℤ, eqb_ℤ}
use z_float_2_main.Exec.{
  Exec, pure, raise, gets, transaction, modify, raise_if, or_raise, ◌>>=◌, ◌>>◌, journal_unbalanced,
  account_not_found, constraint, diverges,
}
use z_float_2_main.Table.{find, find_where, update}
use z_float_2_main.Ledger.Tables.{
  LedgerDb, Wallet, AccountCode, payment_clearing, float_liability, fee_revenue, wallet,
  LedgerAccount, JournalEntry, BalanceSnapshot, RefType, payment, funding, reversal,
}

-- Equality of the codes of SYSTEM_CHART that the postings look up, and of wallets' codes.
abbrev chart_number : AccountCode → ℕ
chart_number AccountCode.cash_wallets = 1000
chart_number payment_clearing = 1200
chart_number float_liability = 2000
chart_number fee_revenue = 4000
chart_number AccountCode.provider_settlement = 5000
chart_number (wallet _) = 0

abbrev wallet_number : AccountCode → ℕ
wallet_number (wallet w) = w
wallet_number _ = 0

abbrev pub same_code : AccountCode → AccountCode → Bool
same_code a b = chart_number a == chart_number b && wallet_number a == wallet_number b

-- The two optional amounts of `JournalEntryInput`, 0 where the caller leaves one out.
pub record EntryLine : Type 0 where
  pub ledger_account_id : ℕ
  pub debit_minor : ℤ
  pub credit_minor : ℤ

abbrev pub debit : ℕ → ℤ → EntryLine
debit acc a = record { ledger_account_id = acc; debit_minor = a; credit_minor = pos 0 }

abbrev pub credit : ℕ → ℤ → EntryLine
credit acc a = record { ledger_account_id = acc; debit_minor = pos 0; credit_minor = a }

pub record PostJournalInput : Type 0 where
  pub tenant_id : ℕ
  pub reference_type : RefType
  pub reference_id : ℕ
  pub entries : List EntryLine
  pub actor_id : Option ℕ

abbrev pub is_account : ℕ → AccountCode → LedgerAccount → Bool
is_account tenant code a = a.tenant_id == tenant && same_code a.code code

-- `getSystemAccount`: the identifier of the row.
unfoldable pub get_system_account : ℕ → AccountCode → Exec LedgerDb ℕ
get_system_account tenant code = do
  found ← gets (λ s. find_where (is_account tenant code) s.ledger_accounts)
  row ← or_raise account_not_found found
  pure row.0

abbrev pub mirrors : ℕ → LedgerAccount → Bool
mirrors id a = elim a.wallet_id [ none ↦ false | some w ↦ w == id ]

abbrev owned_by : ℕ → Option Wallet → Bool
owned_by tenant none = false
owned_by tenant (some w) = w.tenant_id == tenant

abbrev pub wallet_account : ℕ → ℕ → LedgerAccount
wallet_account id tenant = record {
  tenant_id = tenant;
  wallet_id = some id;
  code = wallet id;
  posted_balance_minor = pos 0;
}

abbrev pub add_account : LedgerAccount → LedgerDb → LedgerDb
add_account a s = record s {
  next_id = s.next_id + 1;
  ledger_accounts = (s.next_id, a) ∷ s.ledger_accounts;
}

-- INSERT INTO ledger_accounts … ON CONFLICT DO NOTHING RETURNING, under the unique index on the
-- tenant and the code.
unfoldable pub create_wallet_account : ℕ → ℕ → Exec LedgerDb (Option ℕ)
create_wallet_account id tenant = do
  taken ← gets (λ s. any (λ row. is_account tenant (wallet id) row.1) s.ledger_accounts)
  next ← gets (λ s. s.next_id)
  if taken
      then pure none
      else (do modify (add_account (wallet_account id tenant)); pure (some next))

unfoldable pub created_or : Exec LedgerDb ℕ → Option ℕ → Exec LedgerDb ℕ
created_or again none = again
created_or again (some id) = pure id

unfoldable pub existing_or_create :
    ℕ → ℕ → Exec LedgerDb ℕ → Option (ℕ × LedgerAccount) → Exec LedgerDb ℕ
existing_or_create id tenant again (some row) = pure row.0
existing_or_create id tenant again none = do
  owned ← gets (λ s. owned_by tenant (find id s.wallets))
  raise_if (not owned) account_not_found
  created ← create_wallet_account id tenant
  created_or again created

-- `getWalletLedgerAccount`; the number bounds the calls that it makes of itself.
unfoldable pub get_wallet_ledger_account : ℕ → ℕ → ℕ → Exec LedgerDb ℕ
get_wallet_ledger_account zero id tenant = raise diverges
get_wallet_ledger_account (suc n) id tenant = do
  existing ← gets (λ s. find_where (mirrors id) s.ledger_accounts)
  existing_or_create id tenant (get_wallet_ledger_account n id tenant) existing

abbrev pub calls : ℕ
calls = 2

-- `entries.reduce((acc, e) => acc + f(e), acc)`
unfoldable pub reduce {ℓ} : {A : Type ℓ} → (A → ℤ) → ℤ → List A → ℤ
reduce f acc [] = acc
reduce f acc (e ∷ es) = reduce f (acc +ℤ f e) es

-- Trigger `zf_assert_journal_entry_valid`.
abbrev pub line_is_valid : EntryLine → Bool
line_is_valid e =
    leb_ℤ (pos 0) e.debit_minor
    && leb_ℤ (pos 0) e.credit_minor
    && not (eqb_ℤ e.debit_minor (pos 0) && eqb_ℤ e.credit_minor (pos 0))
    && not (ltb_ℤ (pos 0) e.debit_minor && ltb_ℤ (pos 0) e.credit_minor)

abbrev pub both_or_neither : Bool → Bool → Bool
both_or_neither true b = b
both_or_neither false b = not b

-- Trigger `zf_sync_ledger_account_balance`.
abbrev pub post_to : EntryLine → LedgerAccount → LedgerAccount
post_to e a = record a {
  posted_balance_minor = a.posted_balance_minor +ℤ (e.debit_minor -ℤ e.credit_minor);
}

abbrev pub entry_row : ℕ → EntryLine → JournalEntry
entry_row j e = record {
  journal_id = j;
  ledger_account_id = e.ledger_account_id;
  debit_minor = e.debit_minor;
  credit_minor = e.credit_minor;
}

abbrev pub with_entry : ℕ → EntryLine → LedgerDb → LedgerDb
with_entry j e s = record s {
  journal_entries = entry_row j e ∷ s.journal_entries;
  ledger_accounts = update e.ledger_account_id (post_to e) s.ledger_accounts;
}

-- The loop of `postJournal` over the entries, with the triggers on each row.
unfoldable pub insert_entries : ℕ → List EntryLine → Exec LedgerDb (Unit {0})
insert_entries j [] = pure tt
insert_entries j (e ∷ es) = do
  raise_if (both_or_neither (ltb_ℤ (pos 0) e.debit_minor) (ltb_ℤ (pos 0) e.credit_minor))
      journal_unbalanced
  raise_if (not (line_is_valid e)) constraint
  modify (with_entry j e)
  insert_entries j es

abbrev pub snapshots_of : List EntryLine → List (ℕ × LedgerAccount) → List BalanceSnapshot
snapshots_of es [] = []
snapshots_of es (row ∷ rows) =
    if any (λ e. e.ledger_account_id == row.0) es
    then record { ledger_account_id = row.0; balance_minor = row.1.posted_balance_minor }
      ∷ snapshots_of es rows
    else snapshots_of es rows

-- INSERT INTO journals
abbrev pub insert_journal : PostJournalInput → LedgerDb → LedgerDb
insert_journal i s = record s {
  next_id = s.next_id + 1;
  journals =
      (
        s.next_id,
        record {
          tenant_id = i.tenant_id;
          reference_type = i.reference_type;
          reference_id = i.reference_id;
          created_by_id = i.actor_id;
        },
      )
      ∷ s.journals;
}

abbrev pub take_snapshots : List EntryLine → LedgerDb → LedgerDb
take_snapshots es s = record s {
  balance_snapshots = snapshots_of es s.ledger_accounts ++ s.balance_snapshots;
}

-- `postJournal`: the identifier of the new journal.
unfoldable pub post_journal : PostJournalInput → Exec LedgerDb ℕ
post_journal i = transaction (do
  let debit_total = reduce (λ e. e.debit_minor) (pos 0) i.entries
  let credit_total = reduce (λ e. e.credit_minor) (pos 0) i.entries
  raise_if (not (eqb_ℤ debit_total credit_total)) journal_unbalanced
  raise_if (leb_ℤ debit_total (pos 0)) journal_unbalanced
  id ← gets (λ s. s.next_id)
  modify (insert_journal i)
  insert_entries id i.entries
  modify (take_snapshots i.entries)
  pure id)

pub record PaymentJournalInput : Type 0 where
  pub tenant_id : ℕ
  pub payment_id : ℕ
  pub wallet_id : Option ℕ
  pub amount_minor : ℤ
  pub fee_minor : ℤ
  pub actor_id : Option ℕ

-- The account that funds a payment: the wallet's, or the float of the tenant.
unfoldable pub funding_account : ℕ → Option ℕ → Exec LedgerDb ℕ
funding_account tenant none = get_system_account tenant float_liability
funding_account tenant (some w) = get_wallet_ledger_account calls w tenant

unfoldable pub fee_lines : ℕ → ℤ → Exec LedgerDb (List EntryLine)
fee_lines tenant fee =
    if ltb_ℤ (pos 0) fee
    then (do acc ← get_system_account tenant fee_revenue; pure (credit acc fee ∷ []))
    else pure []

-- `postPaymentSuccessJournal`
unfoldable pub post_payment_success_journal : PaymentJournalInput → Exec LedgerDb (Unit {0})
post_payment_success_journal i = do
  clearing ← get_system_account i.tenant_id payment_clearing
  source ← funding_account i.tenant_id i.wallet_id
  fees ← fee_lines i.tenant_id i.fee_minor
  post_journal (record {
    tenant_id = i.tenant_id;
    reference_type = payment;
    reference_id = i.payment_id;
    entries = debit clearing (i.amount_minor +ℤ i.fee_minor) ∷ credit source i.amount_minor ∷ fees;
    actor_id = i.actor_id;
  })
  pure tt

-- `postReversalJournal`; it has no fee.
unfoldable pub post_reversal_journal : PaymentJournalInput → Exec LedgerDb (Unit {0})
post_reversal_journal i = do
  clearing ← get_system_account i.tenant_id payment_clearing
  source ← funding_account i.tenant_id i.wallet_id
  post_journal (record {
    tenant_id = i.tenant_id;
    reference_type = reversal;
    reference_id = i.payment_id;
    entries = debit source i.amount_minor ∷ credit clearing i.amount_minor ∷ [];
    actor_id = i.actor_id;
  })
  pure tt

-- `postFundingJournal`
unfoldable pub post_funding_journal : ℕ → ℕ → ℤ → Option ℕ → Exec LedgerDb (Unit {0})
post_funding_journal tenant id amount actor = do
  source ← get_wallet_ledger_account calls id tenant
  liability ← get_system_account tenant float_liability
  post_journal (record {
    tenant_id = tenant;
    reference_type = funding;
    reference_id = id;
    entries = debit source amount ∷ credit liability amount ∷ [];
    actor_id = actor;
  })
  pure tt
