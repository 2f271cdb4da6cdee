-- ===== src/Ledger/Vault.antt =====
-- What packages/ledger/src/wallet.ts promises, without its tables: purses, the holds on them, and
-- the four actions that change them.
pub mod View
pub mod Commands
pub mod Runs
use z_float_2_main.Prelude.{ℕ, ◌≡◌, Option, none, some, ◌==◌, if◌then◌else◌}
use z_float_2_main.Prelude.Int.{ℤ, ◌+ℤ◌, ◌-ℤ◌, ◌≤ℤ◌}
use mathlib.Core.Option

pub record Purse : Type 0 where
  pub available : ℤ
  pub reserved : ℤ

pub record Hold : Type 0 where
  pub wallet_id : ℕ
  pub amount : ℤ

-- Purses by wallet, and the holds that are still open, by reservation.
pub record Vault : Type 0 where
  pub purses : ℕ → Option Purse
  pub holds : ℕ → Option Hold

pub data Action : Type 0 where
  open_hold give_hold_back take_hold : (id : ℕ) (h : Hold) → Action
  pay_in : (wallet_id : ℕ) (amount : ℤ) → Action

abbrev pub change : {A : Type 0} → ℕ → (A → A) → (ℕ → Option A) → ℕ → Option A
change k f t j = if j == k then Option.map f (t j) else t j

abbrev pub put : {A : Type 0} → ℕ → Option A → (ℕ → Option A) → ℕ → Option A
put k x t j = if j == k then x else t j

abbrev pub set_aside_purse : ℤ → Purse → Purse
set_aside_purse a p = record { available = p.available -ℤ a; reserved = p.reserved +ℤ a }

abbrev pub give_back_purse : ℤ → Purse → Purse
give_back_purse a p = record { available = p.available +ℤ a; reserved = p.reserved -ℤ a }

abbrev pub take_out_purse : ℤ → Purse → Purse
take_out_purse a p = record p { reserved = p.reserved -ℤ a }

abbrev pub pay_in_purse : ℤ → Purse → Purse
pay_in_purse a p = record p { available = p.available +ℤ a }

abbrev pub act : Action → Vault → Vault
act (open_hold id h) v = record {
  purses = change h.wallet_id (set_aside_purse h.amount) v.purses;
  holds = put id (some h) v.holds;
}
act (give_hold_back id h) v = record {
  purses = change h.wallet_id (give_back_purse h.amount) v.purses;
  holds = put id none v.holds;
}
act (take_hold id h) v = record {
  purses = change h.wallet_id (take_out_purse h.amount) v.purses;
  holds = put id none v.holds;
}
act (pay_in w a) v = record v { purses = change w (pay_in_purse a) v.purses }

-- A hold is opened under a fresh identifier, on a purse that covers it; it ends once, with the
-- amount that it was opened with.
abbrev pub IsAllowed : Action → Vault → Type 0
IsAllowed (open_hold id h) v =
    (v.holds id ≡ none) × (p : Purse) × (v.purses h.wallet_id ≡ some p) × (h.amount ≤ℤ p.available)
IsAllowed (give_hold_back id h) v =
    (v.holds id ≡ some h) × (p : Purse) × (v.purses h.wallet_id ≡ some p)
IsAllowed (take_hold id h) v = (v.holds id ≡ some h) × (p : Purse) × (v.purses h.wallet_id ≡ some p)
IsAllowed (pay_in w a) v = (p : Purse) × (v.purses w ≡ some p)

-- A run of the vault: allowed actions, one after the other.
pub data VaultRun : Vault → Vault → Type 0 where
  stop : (v : Vault) → VaultRun v v
  next : (a : Action) {v u : Vault} → IsAllowed a v → VaultRun (act a v) u → VaultRun v u
