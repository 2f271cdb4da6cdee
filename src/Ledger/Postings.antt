-- ===== src/Ledger/Postings.antt =====
-- Invariants of the journals that packages/ledger/src/wallet.ts posts.
use z_float_2_main.Prelude.{ℕ, zero, suc, Option, none, some, []}
use z_float_2_main.Prelude.Int.{ℤ, pos, ltb_ℤ}
use z_float_2_main.Exec.{Exec, modify}
use z_float_2_main.Exec.Keeps.{
  Keeps, Keeps-modify, Keeps-bind, Keeps-gets, Keeps-pure, Keeps-if, Keeps-guard, keeps_rules,
}
use z_float_2_main.Table.{Table}
use z_float_2_main.Ledger.Tables.{LedgerDb, LedgerAccount, AccountCode}
use z_float_2_main.Ledger.Journal.{
  PostJournalInput, get_wallet_ledger_account, get_system_account, post_journal,
  PaymentJournalInput, post_payment_success_journal, post_reversal_journal, post_funding_journal,
  created_or, existing_or_create, create_wallet_account, funding_account, fee_lines, calls,
  wallet_account, add_account,
}

-- A property that new accounts and new journals keep.
pub record IsPostable (P : LedgerDb → Type 0) : Type 0 where
  pub accounts :
      (s : LedgerDb) (n : ℕ) (a : Table LedgerAccount)
      → P s
      → P (record s { next_id = n; ledger_accounts = a })
  pub postings : (i : PostJournalInput) → Keeps P (post_journal i)

module _ {P : LedgerDb → Type 0} (stable : IsPostable P) where
  open stable use {accounts, postings}

  get_system_account-Keeps :
      (tenant : ℕ) (code : AccountCode) → Keeps P (get_system_account tenant code)
  unfolding get_system_account
  get_system_account-Keeps tenant code = search keeps_rules

  adding-Keeps : (a : LedgerAccount) → Keeps P (modify (add_account a))
  adding-Keeps a = Keeps-modify (add_account a) (λ s h. accounts s _ _ h)

  create_wallet_account-Keeps : (id tenant : ℕ) → Keeps P (create_wallet_account id tenant)
  unfolding create_wallet_account
  create_wallet_account-Keeps id tenant = Keeps-bind _ _ (Keeps-gets _) λ taken.
      Keeps-bind _ _ (Keeps-gets _) λ next.
        Keeps-if taken _ _ (Keeps-pure none)
          (search (keeps_rules, adding-Keeps (wallet_account id tenant)))

  created_or-Keeps :
      (again : Exec LedgerDb ℕ) (o : Option ℕ) → Keeps P again → Keeps P (created_or again o)
  unfolding created_or
  created_or-Keeps again none k = k
  created_or-Keeps again (some id) k = search keeps_rules

  existing_or_create-Keeps :
      (id tenant : ℕ) (again : Exec LedgerDb ℕ) (o : Option (ℕ × LedgerAccount))
      → Keeps P again
      → Keeps P (existing_or_create id tenant again o)
  unfolding existing_or_create
  existing_or_create-Keeps id tenant again (some row) k = search keeps_rules
  existing_or_create-Keeps id tenant again none k = Keeps-bind _ _ (Keeps-gets _) λ owned.
      Keeps-guard _ _ _
        (search (keeps_rules, create_wallet_account-Keeps id tenant, created_or-Keeps))

  get_wallet_ledger_account-Keeps :
      (n id tenant : ℕ) → Keeps P (get_wallet_ledger_account n id tenant)
  unfolding get_wallet_ledger_account
  get_wallet_ledger_account-Keeps zero id tenant = search keeps_rules
  get_wallet_ledger_account-Keeps (suc n) id tenant =
      let again : Keeps P (get_wallet_ledger_account n id tenant) =
        get_wallet_ledger_account-Keeps n id tenant in
      search (keeps_rules, existing_or_create-Keeps)

  funding_account-Keeps : (tenant : ℕ) (w : Option ℕ) → Keeps P (funding_account tenant w)
  unfolding funding_account
  funding_account-Keeps tenant none = search get_system_account-Keeps
  funding_account-Keeps tenant (some w) = get_wallet_ledger_account-Keeps calls w tenant

  fee_lines-Keeps : (tenant : ℕ) (fee : ℤ) → Keeps P (fee_lines tenant fee)
  unfolding fee_lines
  fee_lines-Keeps tenant fee =
      Keeps-if (ltb_ℤ (pos 0) fee) _ _ (search (keeps_rules, get_system_account-Keeps))
        (Keeps-pure [])

  pub post_payment_success_journal-Keeps :
      (i : PaymentJournalInput) → Keeps P (post_payment_success_journal i)
  unfolding post_payment_success_journal
  post_payment_success_journal-Keeps i =
      search
        (keeps_rules, get_system_account-Keeps, funding_account-Keeps, fee_lines-Keeps, postings)
        depth 9

  pub post_reversal_journal-Keeps : (i : PaymentJournalInput) → Keeps P (post_reversal_journal i)
  unfolding post_reversal_journal
  post_reversal_journal-Keeps i =
      search (keeps_rules, get_system_account-Keeps, funding_account-Keeps, postings) depth 9

  pub post_funding_journal-Keeps :
      (tenant id : ℕ) (amount : ℤ) (actor : Option ℕ)
      → Keeps P (post_funding_journal tenant id amount actor)
  unfolding post_funding_journal
  post_funding_journal-Keeps tenant id amount actor =
      search (keeps_rules, get_system_account-Keeps, get_wallet_ledger_account-Keeps, postings)
        depth 9
