-- ===== src/Ledger/Wallet.antt =====
-- packages/ledger/src/wallet.ts: the balances of wallets, and the ledger of their movements.
use z_float_2_main.Prelude.{ℕ, Bool, true, not, ◌&&◌, Option, none, some, ◌∷◌, ◌==◌, if◌then◌else◌}
use z_float_2_main.Prelude.Int.{ℤ, pos, ◌+ℤ◌, ◌-ℤ◌, leb_ℤ, eqb_ℤ}
use z_float_2_main.Exec.{
  Exec, pure, gets, modify, raise_if, or_raise, ◌>>=◌, ◌>>◌, wallet_not_found, constraint,
}
use z_float_2_main.Table.{find, update}
use z_float_2_main.Ledger.Tables.{
  LedgerDb, Wallet, WalletLedgerEntry, EntryType, fund, reserve, reserve_denied, release, apply,
  RefType,
}

abbrev pub neg_ℤ : ℤ → ℤ
neg_ℤ a = pos 0 -ℤ a

-- Trigger `zf_assert_non_negative_minor`: no update may leave a balance below zero.
unfoldable pub is_non_negative : Wallet → Bool
is_non_negative w = leb_ℤ (pos 0) w.available_minor && leb_ℤ (pos 0) w.reserved_minor

-- The deltas that trigger `zf_assert_wallet_ledger_entry` asks of each type of entry.
unfoldable pub deltas_fit : EntryType → (amount available reserved : ℤ) → Bool
deltas_fit fund a av rs = eqb_ℤ av a && eqb_ℤ rs (pos 0)
deltas_fit reserve a av rs = eqb_ℤ av (neg_ℤ a) && eqb_ℤ rs a
deltas_fit release a av rs = eqb_ℤ av a && eqb_ℤ rs (neg_ℤ a)
deltas_fit apply a av rs = eqb_ℤ av (pos 0) && eqb_ℤ rs (neg_ℤ a)
deltas_fit reserve_denied a av rs = eqb_ℤ av (pos 0) && eqb_ℤ rs (pos 0)

-- Trigger `zf_assert_wallet_ledger_entry`, at a row whose wallet is `w`.
unfoldable pub entry_is_valid : Wallet → WalletLedgerEntry → Bool
entry_is_valid w e =
    leb_ℤ (pos 0) e.amount_minor
    && eqb_ℤ e.available_after_minor w.available_minor
    && eqb_ℤ e.reserved_after_minor w.reserved_minor
    && deltas_fit e.entry_type e.amount_minor e.delta_available_minor e.delta_reserved_minor

-- UPDATE wallets, under the trigger: the row with the key, if the rest of the WHERE clause admits
-- it. The row that was written comes back.
unfoldable pub write_wallet :
    ℕ → (Wallet → Bool) → (Wallet → Wallet) → Option Wallet → Exec LedgerDb (Option Wallet)
write_wallet id admits set none = pure none
write_wallet id admits set (some w) =
    if admits w
    then (do
      raise_if (not (is_non_negative (set w))) constraint
      modify (λ s. record s { wallets = update id set s.wallets })
      pure (some (set w)))
    else pure none

unfoldable pub update_wallet :
    ℕ → (Wallet → Bool) → (Wallet → Wallet) → Exec LedgerDb (Option Wallet)
update_wallet id admits set = do
  found ← gets (λ s. find id s.wallets)
  write_wallet id admits set found

abbrev pub any_wallet : Wallet → Bool
any_wallet _ = true

pub record EntryInput : Type 0 where
  pub tenant_id : ℕ
  pub wallet_id : ℕ
  pub entry_type : EntryType
  pub ref_type : RefType
  pub ref_id : ℕ
  pub amount_minor : ℤ
  pub delta_available_minor : ℤ
  pub delta_reserved_minor : ℤ

abbrev pub entry_of : EntryInput → Wallet → WalletLedgerEntry
entry_of i w = record {
  tenant_id = i.tenant_id;
  wallet_id = i.wallet_id;
  entry_type = i.entry_type;
  ref_type = i.ref_type;
  ref_id = i.ref_id;
  amount_minor = i.amount_minor;
  delta_available_minor = i.delta_available_minor;
  delta_reserved_minor = i.delta_reserved_minor;
  available_after_minor = w.available_minor;
  reserved_after_minor = w.reserved_minor;
}

-- `appendWalletLedgerEntry`, with the trigger on the row that it inserts.
unfoldable pub append_wallet_ledger_entry : EntryInput → Exec LedgerDb (Unit {0})
append_wallet_ledger_entry i = do
  found ← gets (λ s. find i.wallet_id s.wallets)
  w ← or_raise wallet_not_found found
  raise_if (not (entry_is_valid w (entry_of i w))) constraint
  modify (λ s. record s { wallet_ledger_entries = entry_of i w ∷ s.wallet_ledger_entries })

pub record FundingInput : Type 0 where
  pub tenant_id : ℕ
  pub wallet_id : ℕ
  pub ref_type : RefType
  pub ref_id : ℕ
  pub amount_minor : ℤ

-- `recordWalletFunding`
unfoldable pub record_wallet_funding : FundingInput → Exec LedgerDb (Unit {0})
record_wallet_funding i = append_wallet_ledger_entry (record {
  tenant_id = i.tenant_id;
  wallet_id = i.wallet_id;
  entry_type = fund;
  ref_type = i.ref_type;
  ref_id = i.ref_id;
  amount_minor = i.amount_minor;
  delta_available_minor = i.amount_minor;
  delta_reserved_minor = pos 0;
})

pub record WalletBalance : Type 0 where
  pub wallet_id : ℕ
  pub available_minor : ℤ
  pub reserved_minor : ℤ
  pub total_minor : ℤ

abbrev pub balance_of : ℕ → Wallet → WalletBalance
balance_of id w = record {
  wallet_id = id;
  available_minor = w.available_minor;
  reserved_minor = w.reserved_minor;
  total_minor = w.available_minor +ℤ w.reserved_minor;
}

abbrev in_tenant : ℕ → Option Wallet → Option Wallet
in_tenant tenant none = none
in_tenant tenant (some w) = if w.tenant_id == tenant then some w else none

-- `getWalletBalance`
unfoldable pub get_wallet_balance : ℕ → ℕ → Exec LedgerDb WalletBalance
get_wallet_balance id tenant = do
  found ← gets (λ s. in_tenant tenant (find id s.wallets))
  w ← or_raise wallet_not_found found
  pure (balance_of id w)
