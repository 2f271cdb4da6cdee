-- ===== src/Ledger/Moves.antt =====
-- What a command of the ledger package may do to wallets: move amounts, and put that on record.
pub mod Rules
pub mod Commands
pub mod Endings
pub mod Granted
use z_float_2_main.Prelude.{
  ℕ, ◌≡◌, refl, ◌⊎◌, inl, inr, Option, none, some, [], ◌∷◌, arith, ◌==◌, if◌then◌else◌,
  Option-cases, Bool-cases,
}
use z_float_2_main.Prelude.Int.{ℤ, pos, ◌+ℤ◌, ◌-ℤ◌, int_laws, +ℤ-zero}
use z_float_2_main.Table.{Table, find, update, find-update}
use z_float_2_main.Ledger.Tables.{LedgerDb, Wallet, WalletReservation, WalletLedgerEntry, is_held}
use z_float_2_main.Ledger.Wallet.{neg_ℤ}
use mathlib.Core.Bool.{true, false}

-- The sum of the reservations that a wallet holds.
unfoldable pub held_by : ℕ → Table WalletReservation → ℤ
held_by w [] = pos 0
held_by w ((_, r) ∷ t) =
    (if is_held r.status then (if w == r.wallet_id then r.amount_minor else pos 0) else pos 0)
    +ℤ held_by w t

abbrev pub at_wallet : ℕ → ℕ → ℤ → ℤ
at_wallet v w a = if v == w then a else pos 0

-- One entry of the ledger, with the change that it records.
pub record Moves (s s' : LedgerDb) : Type 0 where
  pub entry : WalletLedgerEntry
  pub logged : s'.wallet_ledger_entries ≡ entry ∷ s.wallet_ledger_entries
  pub books : s'.journal_entries ≡ s.journal_entries
  pub held_diff :
      (v : ℕ)
      → held_by v s'.wallet_reservations
        ≡ held_by v s.wallet_reservations +ℤ at_wallet v entry.wallet_id entry.delta_reserved_minor
  pub rows :
      (v : ℕ) (w' : Wallet)
      → find v s'.wallets ≡ some w'
      → (w : Wallet) × (find v s.wallets ≡ some w)
        × (w'.available_minor
            ≡ w.available_minor +ℤ at_wallet v entry.wallet_id entry.delta_available_minor)
        × (w'.reserved_minor
            ≡ w.reserved_minor +ℤ at_wallet v entry.wallet_id entry.delta_reserved_minor)

-- A command either leaves the tables alone or moves one amount.
abbrev pub Outcome : LedgerDb → LedgerDb → Type 0
Outcome s s' = (s' ≡ s) ⊎ Moves s s'

-- A write of one wallet shifts its row, and no other.
pub rows_of_update :
    (id : ℕ) (f : Wallet → Wallet) (da dr : ℤ) (t : Table Wallet)
    → ((w : Wallet)
        → ((f w).available_minor ≡ w.available_minor +ℤ da)
          × ((f w).reserved_minor ≡ w.reserved_minor +ℤ dr))
    → (v : ℕ) (w' : Wallet) → find v (update id f t) ≡ some w'
    → (w : Wallet) × (find v t ≡ some w)
      × (w'.available_minor ≡ w.available_minor +ℤ at_wallet v id da)
      × (w'.reserved_minor ≡ w.reserved_minor +ℤ at_wallet v id dr)
rows_of_update id f da dr t shift v w' e = elim (Option-cases (find v t)) [
  | inl missing ↦ absurd (ground (arith, find-update v id f t))
  | inr (w, there) ↦ (
    w,
    there,
    ground (arith, find-update v id f t, shift w, +ℤ-zero w.available_minor),
    ground (arith, find-update v id f t, shift w, +ℤ-zero w.reserved_minor),
  )
]

-- Ending a held reservation takes its amount off what its wallet holds.
pub held_by-update :
    (v id : ℕ) (f : WalletReservation → WalletReservation) (t : Table WalletReservation)
    (res : WalletReservation)
    → find id t ≡ some res
    → is_held res.status ≡ true
    → is_held (f res).status ≡ false
    → held_by v (update id f t) ≡ held_by v t +ℤ at_wallet v res.wallet_id (neg_ℤ res.amount_minor)
unfolding held_by find update
held_by-update v id f [] res e h k = cc
held_by-update v id f ((j, r) ∷ t) res e h k = elim (Bool-cases (j == id)) [
  | inl same ↦ grind (int_laws)
  | inr other ↦ grind (int_laws, held_by-update v id f t res)
]
