-- ===== src/Ledger/Moves/Rules.antt =====
-- What the statements of the ledger package leave when they return.
use z_float_2_main.Prelude.{ℕ, ◌≡◌, refl, Bool, true, false, Option, none, some, ◌∷◌}
use z_float_2_main.Exec.Post.{
  Post, Post-pure, Post-gets, Post-or_raise, Post-if, Post-modify, Post-raise_if, Post-bind,
}
use z_float_2_main.Table.{find, update}
use z_float_2_main.Ledger.Tables.{LedgerDb, Wallet}
use z_float_2_main.Ledger.Wallet.{
  EntryInput, entry_of, append_wallet_ledger_entry, write_wallet, update_wallet,
}

module _ {P : Option Wallet → LedgerDb → Type 0} where
  write_wallet-Post :
      (id : ℕ) (admits : Wallet → Bool) (set : Wallet → Wallet) (found : Option Wallet)
      (s : LedgerDb)
      → (found ≡ none → P none s)
      → ((w : Wallet) → found ≡ some w → admits w ≡ false → P none s)
      → ((w : Wallet)
          → found ≡ some w
          → admits w ≡ true
          → P (some (set w)) (record s { wallets = update id set s.wallets }))
      → Post P (write_wallet id admits set found) s
  unfolding write_wallet
  write_wallet-Post id admits set none s a b c = Post-pure none s (a refl)
  write_wallet-Post id admits set (some w) s a b c =
      Post-if (admits w) _ _ s
        (λ yes_row. Post-bind _ _ s (
          Post-raise_if _ _ s
            (λ _. Post-bind _ _ s (Post-modify _ s (Post-pure _ _ (c w refl yes_row))))))
        (λ no_row. Post-pure none s (b w refl no_row))

  pub update_wallet-Post :
      (id : ℕ) (admits : Wallet → Bool) (set : Wallet → Wallet) (s : LedgerDb)
      → (find id s.wallets ≡ none → P none s)
      → ((w : Wallet) → find id s.wallets ≡ some w → admits w ≡ false → P none s)
      → ((w : Wallet)
          → find id s.wallets ≡ some w
          → admits w ≡ true
          → P (some (set w)) (record s { wallets = update id set s.wallets }))
      → Post P (update_wallet id admits set) s
  unfolding update_wallet
  update_wallet-Post id admits set s a b c =
      Post-bind _ _ s (Post-gets _ s (write_wallet-Post id admits set (find id s.wallets) s a b c))

pub append-Post :
    {P : Unit {0} → LedgerDb → Type 0} (i : EntryInput) (s : LedgerDb)
    → ((w : Wallet)
        → find i.wallet_id s.wallets ≡ some w
        → P tt (record s { wallet_ledger_entries = entry_of i w ∷ s.wallet_ledger_entries }))
    → Post P (append_wallet_ledger_entry i) s
unfolding append_wallet_ledger_entry
append-Post i s h = Post-bind _ _ s (
    Post-gets _ s (
      Post-bind _ _ s (
        Post-or_raise _ _ s
          (λ w e. Post-bind _ _ s (Post-raise_if _ _ s (λ _. Post-modify _ s (h w e)))))))
