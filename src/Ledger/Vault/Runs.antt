-- ===== src/Ledger/Vault/Runs.antt =====
-- Sequences of the commands of packages/ledger/src/wallet.ts as runs of the vault.
use z_float_2_main.Prelude.{ℕ, refl, inl, inr, List, [], ◌∷◌}
use mathlib.Core.Path.{subst}
use z_float_2_main.Exec.{transaction, ◌>>◌}
use z_float_2_main.Exec.Post.{transaction_ends}
use z_float_2_main.Ledger.Tables.{LedgerDb}
use z_float_2_main.Ledger.Wallet.{update_wallet, any_wallet, FundingInput, record_wallet_funding}
use z_float_2_main.Ledger.Reservation.{
  ReserveInput, reserve_funds, release_reservation, apply_reservation, deposit,
}
use z_float_2_main.Ledger.Vault.{Vault, VaultRun, stop, next}
use z_float_2_main.Ledger.Vault.View.{vault_of, AreDrawn, IsStep, Refines}
use z_float_2_main.Ledger.Vault.Commands.{
  reserve_funds-Refines, release_reservation-Refines, apply_reservation-Refines, deposit-Refines,
}

-- A call of the package, with its input.
pub data LedgerCommand : Type 0 where
  reserve_for : ReserveInput → LedgerCommand
  release_held apply_held : (id : ℕ) → LedgerCommand
  pay_from : FundingInput → LedgerCommand

-- The state that a call leaves, whether it returns or throws.
abbrev pub run_command : LedgerCommand → LedgerDb → LedgerDb
run_command (reserve_for i) s = (reserve_funds i s).1
run_command (release_held id) s = (release_reservation id s).1
run_command (apply_held id) s = (apply_reservation id s).1
run_command (pay_from i) s =
    (transaction
      (update_wallet i.wallet_id any_wallet (deposit i.amount_minor) >> record_wallet_funding i)
      s).1

abbrev pub run_commands : List LedgerCommand → LedgerDb → LedgerDb
run_commands [] s = s
run_commands (c ∷ commands) s = run_commands commands (run_command c s)

run_command-Refines : (c : LedgerCommand) (s : LedgerDb) → AreDrawn s → Refines s (run_command c s)
run_command-Refines (reserve_for i) s h = reserve_funds-Refines s h i
run_command-Refines (release_held id) s h = release_reservation-Refines s h id
run_command-Refines (apply_held id) s h = apply_reservation-Refines s h id
run_command-Refines (pay_from i) s h =
    transaction_ends (Refines s) _ s (inl refl, h) (deposit-Refines s h i)

step_first : (v u w : Vault) → IsStep v u → VaultRun u w → VaultRun v w
step_first v u w (inl same) r = subst (λ x. VaultRun x w) same r
step_first v u w (inr (a, allowed, same)) r = next a allowed (subst (λ x. VaultRun x w) same r)

-- Where the identifiers of the reservations were drawn, any sequence of calls that reserve,
-- release, apply and pay in, each returning or throwing, is a run of the vault: a purse covers each
-- hold that is opened, a hold is opened under a fresh identifier and ends at most once, with its
-- own amount, and nothing else changes a purse.
pub run_commands-VaultRun :
    (commands : List LedgerCommand) (s : LedgerDb)
    → AreDrawn s
    → VaultRun (vault_of s) (vault_of (run_commands commands s))
run_commands-VaultRun [] s h = stop (vault_of s)
run_commands-VaultRun (c ∷ commands) s h =
    let (one, drawn) = run_command-Refines c s h in
    step_first _ _ _ one (run_commands-VaultRun commands (run_command c s) drawn)
