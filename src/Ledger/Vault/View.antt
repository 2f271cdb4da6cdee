-- ===== src/Ledger/Vault/View.antt =====
-- The vault that the tables of packages/ledger stand for.
use z_float_2_main.Prelude.{
  ℕ, ◌<◌, ◌≡◌, refl, ap, inl, inr, Bool, true, false, Option, none, some, [], ◌∷◌, ◌==◌,
  if◌then◌else◌, arith, Bool-cases, All, ◌⊎◌,
}
use mathlib.Core.Option
use z_float_2_main.Table.{Table, find, update, find-update}
use z_float_2_main.Ledger.Tables.{LedgerDb, Wallet, WalletReservation, is_held}
use z_float_2_main.Ledger.Vault.{Purse, Hold, Vault, Action, change, put, act, IsAllowed}

abbrev pub purse_of : Wallet → Purse
purse_of w = record { available = w.available_minor; reserved = w.reserved_minor }

abbrev pub hold_of : WalletReservation → Hold
hold_of r = record { wallet_id = r.wallet_id; amount = r.amount_minor }

abbrev pub open_of : Option WalletReservation → Option Hold
open_of none = none
open_of (some r) = if is_held r.status then some (hold_of r) else none

-- The vault that the tables stand for.
abbrev pub vault_of : LedgerDb → Vault
vault_of s = record {
  purses = λ k. Option.map purse_of (find k s.wallets);
  holds = λ k. open_of (find k s.wallet_reservations);
}

-- Reservations have identifiers that were drawn.
abbrev pub AreDrawn : LedgerDb → Type 0
AreDrawn s = All (λ row. row.0 < s.next_id) s.wallet_reservations

-- The tables stand for the same vault, or for the one after an action that is allowed.
abbrev pub IsStep : Vault → Vault → Type 0
IsStep v u = (u ≡ v) ⊎ ((a : Action) × IsAllowed a v × (u ≡ act a v))

abbrev pub Refines : LedgerDb → LedgerDb → Type 0
Refines s t = IsStep (vault_of s) (vault_of t) × AreDrawn t

pub find-undrawn :
    (n : ℕ) (rows : Table WalletReservation) → All (λ row. row.0 < n) rows → find n rows ≡ none
unfolding find
find-undrawn n [] h = refl
find-undrawn n ((j, r) ∷ rows) h = ground (arith, find-undrawn n rows h.1)

pub update-AreDrawn :
    (n id : ℕ) (f : WalletReservation → WalletReservation) (rows : Table WalletReservation)
    → All (λ row. row.0 < n) rows
    → All (λ row. row.0 < n) (update id f rows)
unfolding update
update-AreDrawn n id f [] h = tt
update-AreDrawn n id f ((j, r) ∷ rows) h = elim (Bool-cases (j == id)) [
  | inl same ↦ rw same (h.0, h.1)
  | inr other ↦ rw other (h.0, update-AreDrawn n id f rows h.1)
]

purse_if :
    (f : Wallet → Wallet) (g : Purse → Purse)
    → ((w : Wallet) → purse_of (f w) ≡ g (purse_of w))
    → (b : Bool) (o : Option Wallet)
    → Option.map purse_of (if b then Option.map f o else o)
      ≡ (if b then Option.map g (Option.map purse_of o) else Option.map purse_of o)
purse_if f g same true none = refl
purse_if f g same true (some w) = ap some (same w)
purse_if f g same false o = refl

hold_if :
    (f : WalletReservation → WalletReservation)
    → ((r : WalletReservation) → is_held (f r).status ≡ false)
    → (b : Bool) (o : Option WalletReservation)
    → open_of (if b then Option.map f o else o) ≡ (if b then none else open_of o)
hold_if f ended true none = refl
hold_if f ended true (some r) = rw (ended r) refl
hold_if f ended false o = refl

pub purse-update :
    (id : ℕ) (f : Wallet → Wallet) (g : Purse → Purse) (rows : Table Wallet)
    → ((w : Wallet) → purse_of (f w) ≡ g (purse_of w))
    → (k : ℕ)
    → Option.map purse_of (find k (update id f rows))
      ≡ change id g (λ j. Option.map purse_of (find j rows)) k
purse-update id f g rows same k =
    rw (find-update k id f rows) (purse_if f g same (k == id) (find k rows))

pub hold-update :
    (id : ℕ) (f : WalletReservation → WalletReservation) (rows : Table WalletReservation)
    → ((r : WalletReservation) → is_held (f r).status ≡ false)
    → (k : ℕ) → open_of (find k (update id f rows)) ≡ put id none (λ j. open_of (find j rows)) k
hold-update id f rows ended k =
    rw (find-update k id f rows) (hold_if f ended (k == id) (find k rows))

pub same_vault :
    {v u : Vault} → ((k : ℕ) → v.purses k ≡ u.purses k) → ((k : ℕ) → v.holds k ≡ u.holds k) → v ≡ u
same_vault {v} {u} p h = λ i. record { purses = λ k. p k i; holds = λ k. h k i }

-- What a row stands for, where it is there.
pub purse_there :
    (id : ℕ) (w : Wallet) (rows : Table Wallet)
    → find id rows ≡ some w
    → Option.map purse_of (find id rows) ≡ some (purse_of w)
purse_there id w rows there = rw there refl

pub hold_there :
    (id : ℕ) (r : WalletReservation) (rows : Table WalletReservation)
    → find id rows ≡ some r
    → is_held r.status ≡ true
    → open_of (find id rows) ≡ some (hold_of r)
hold_there id r rows there live = ground arith
