-- ===== src/Ledger/Sound.antt =====
-- The balances of wallets beside their reservations and their ledger
-- (packages/ledger/src/wallet.ts).
use z_float_2_main.Prelude.{ℕ, ◌≡◌, refl, inl, inr, some, List, [], ◌∷◌}
use z_float_2_main.Prelude.Int.{ℤ, pos, ◌+ℤ◌, int_laws}
use z_float_2_main.Table.{Table, find}
use z_float_2_main.Ledger.Tables.{LedgerDb, Wallet, WalletReservation, WalletLedgerEntry}
use z_float_2_main.Ledger.Moves.{held_by, at_wallet, Moves, Outcome}

-- The sums of the deltas on record for a wallet.
unfoldable pub logged_available : ℕ → List WalletLedgerEntry → ℤ
logged_available v [] = pos 0
logged_available v (e ∷ es) =
    logged_available v es +ℤ at_wallet v e.wallet_id e.delta_available_minor

unfoldable pub logged_reserved : ℕ → List WalletLedgerEntry → ℤ
logged_reserved v [] = pos 0
logged_reserved v (e ∷ es) = logged_reserved v es +ℤ at_wallet v e.wallet_id e.delta_reserved_minor

-- The available balance is what the wallet opened with and the replay of its ledger; the reserved
-- balance is the replay of its ledger, and what its held reservations come to.
pub record Accounted (opening : ℕ → ℤ) (wallets : Table Wallet)
    (reservations : Table WalletReservation) (entries : List WalletLedgerEntry) : Type 0 where
  pub available :
      (v : ℕ) (w : Wallet)
      → find v wallets ≡ some w
      → w.available_minor ≡ opening v +ℤ logged_available v entries
  pub reserved :
      (v : ℕ) (w : Wallet) → find v wallets ≡ some w → w.reserved_minor ≡ logged_reserved v entries
  pub held :
      (v : ℕ) (w : Wallet) → find v wallets ≡ some w → w.reserved_minor ≡ held_by v reservations

abbrev pub IsSound : (ℕ → ℤ) → LedgerDb → Type 0
IsSound opening s = Accounted opening s.wallets s.wallet_reservations s.wallet_ledger_entries

module _ (opening : ℕ → ℤ) {s s' : LedgerDb} where
  Moves-IsSound : Moves s s' → IsSound opening s → IsSound opening s'
  unfolding logged_available logged_reserved
  Moves-IsSound m h = record {
    available = λ v w' e.
        let (w, there, a, b) = m.rows v w' e in
        rw (m.logged, a, h.available v w there) (omega int_laws);
    reserved = λ v w' e.
        let (w, there, a, b) = m.rows v w' e in rw (m.logged, b, h.reserved v w there) refl;
    held = λ v w' e.
        let (w, there, a, b) = m.rows v w' e in rw (b, m.held_diff v, h.held v w there) refl;
  }

  pub Outcome-IsSound : Outcome s s' → IsSound opening s → IsSound opening s'
  Outcome-IsSound (inl same) h = rw same h
  Outcome-IsSound (inr m) h = Moves-IsSound m h
