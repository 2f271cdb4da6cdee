-- ===== src/Ledger/Tests.antt =====
-- Runs of the ledger's commands on a small database.
use z_float_2_main.Prelude.{ℕ, refl, none, [], ◌∷◌, arith, ◌≡◌, refl}
use z_float_2_main.Prelude.Int.{ℤ, pos, ◌+ℤ◌, ◌-ℤ◌}
use z_float_2_main.Table.{find}
use z_float_2_main.Exec.{ok, pure, raise, gets, transaction, modify, raise_if, or_raise, ◌>>=◌}
use z_float_2_main.Table.{update}
use z_float_2_main.Ledger.Wallet.{
  update_wallet, write_wallet, is_non_negative, deltas_fit, entry_is_valid,
  append_wallet_ledger_entry,
}
use z_float_2_main.Ledger.Moves.Granted.{IsSetAside, reserve_funds-IsSetAside}
use z_float_2_main.Ledger.Reservation.{
  Reserved, attempt_reserve, finish_reserve, after_update, insert_reservation,
}
use z_float_2_main.Ledger.Tables.{
  LedgerDb, Wallet, active, payment_clearing, float_liability, fee_revenue, funding,
}
use z_float_2_main.Ledger.Journal.{PostJournalInput, debit, credit, post_journal}
use z_float_2_main.Ledger.Reservation.{
  ReserveInput, reserve_funds, release_reservation, apply_reservation,
}
use z_float_2_main.Ledger.Moves.{held_by}
use z_float_2_main.Ledger.Vault.{VaultRun}
use z_float_2_main.Ledger.Vault.View.{vault_of}
use z_float_2_main.Ledger.Vault.Runs.{
  LedgerCommand, reserve_for, release_held, apply_held, pay_from, run_commands,
  run_commands-VaultRun,
}
use z_float_2_main.Ledger.Tables.{RefType}
use z_float_2_main.Ledger.Reservation.{release_row, apply_row}
use z_float_2_main.Ledger.Wallet.{record_wallet_funding}
use mathlib.Core.Option
use z_float_2_main.Prelude.{List, some}
use z_float_2_main.Ledger.Sound.{logged_available, logged_reserved}
use z_float_2_main.Ledger.Books.{HasBalancedBooks, post_journal_balanced, side_of}
use z_float_2_main.Ledger.Healthy.{IsHealthy, reserve_funds-IsHealthy, end_reservation-IsHealthy}

abbrev wallet : Wallet
wallet = record {
  tenant_id = 7;
  available_minor = pos 5000;
  reserved_minor = pos 0;
  status = active;
}

-- A wallet of 50 shillings and the accounts of its tenant.
abbrev pub start : LedgerDb
start = record {
  next_id = 10;
  wallets = (1, wallet) ∷ [];
  wallet_reservations = [];
  wallet_ledger_entries = [];
  ledger_accounts =
      (
        2,
        record {
          tenant_id = 7;
          wallet_id = none;
          code = payment_clearing;
          posted_balance_minor = pos 0;
        },
      )
      ∷ (
        3,
        record {
          tenant_id = 7;
          wallet_id = none;
          code = float_liability;
          posted_balance_minor = pos 0;
        },
      )
      ∷ (
        4,
        record {
          tenant_id = 7;
          wallet_id = none;
          code = fee_revenue;
          posted_balance_minor = pos 0;
        },
      )
      ∷ [];
  journals = [];
  journal_entries = [];
  balance_snapshots = [];
}

abbrev pub opening : ℕ → ℤ
opening _ = pos 5000

pub start-IsHealthy : IsHealthy opening start
unfolding find logged_available logged_reserved held_by side_of ◌+ℤ◌
start-IsHealthy = record {
  sound = record {
    available = λ v w e. ground arith;
    reserved = λ v w e. ground arith;
    held = λ v w e. ground arith;
  };
  balanced = λ j. refl;
}

abbrev payment_of : ℤ → ReserveInput
payment_of amount = record { tenant_id = 7; payment_id = 20; wallet_id = 1; amount_minor = amount }

abbrev reserved : LedgerDb
reserved = (reserve_funds (payment_of (pos 3000)) start).1

reserve_funds-IsHealthy_example : IsHealthy opening reserved
reserve_funds-IsHealthy_example =
    reserve_funds-IsHealthy opening (payment_of (pos 3000)) start start-IsHealthy

end_reservation-IsHealthy_example :
    IsHealthy opening (release_reservation 10 reserved).1
    × IsHealthy opening (apply_reservation 10 reserved).1
end_reservation-IsHealthy_example =
    end_reservation-IsHealthy opening 10 reserved
      (reserve_funds-IsHealthy opening (payment_of (pos 3000)) start start-IsHealthy)

defs : Unit {0}
unfolding reserve_funds attempt_reserve finish_reserve after_update insert_reservation update_wallet
    write_wallet is_non_negative deltas_fit entry_is_valid append_wallet_ledger_entry pure raise
    gets transaction modify raise_if or_raise ◌>>=◌ find update ◌+ℤ◌ ◌-ℤ◌
defs = tt

abbrev grant : Reserved
grant = record {
  reservation_id = 10;
  balance_after = record {
    wallet_id = 1;
    available_minor = pos 2000;
    reserved_minor = pos 3000;
    total_minor = pos 5000;
  };
}

granted : reserve_funds (payment_of (pos 3000)) start ≡ (ok grant, reserved)
unfolding defs
granted = refl

reserve_funds-IsSetAside_example :
    IsSetAside (payment_of (pos 3000)) start reserved × (grant.reservation_id ≡ start.next_id)
reserve_funds-IsSetAside_example =
    reserve_funds-IsSetAside (payment_of (pos 3000)) start reserved grant granted

-- Two payments reserve, one is paid out, the other given back; then more than there is.
abbrev ledger_calls : List LedgerCommand
ledger_calls =
    reserve_for (payment_of (pos 3000))
    ∷ reserve_for (record { tenant_id = 7; payment_id = 21; wallet_id = 1; amount_minor = pos 500 })
    ∷ apply_held 10
    ∷ release_held 11
    ∷ release_held 10
    ∷ reserve_for
        (record { tenant_id = 7; payment_id = 22; wallet_id = 1; amount_minor = pos 9000 })
    ∷ pay_from (record {
      tenant_id = 7;
      wallet_id = 1;
      ref_type = RefType.funding;
      ref_id = 3;
      amount_minor = pos 800;
    })
    ∷ []

run_commands-VaultRun_example :
    VaultRun (vault_of start) (vault_of (run_commands ledger_calls start))
run_commands-VaultRun_example = run_commands-VaultRun ledger_calls start tt

-- What is left in the purse.
ledger_calls_end :
    Option.map (λ w. w.available_minor) (find 1 (run_commands ledger_calls start).wallets)
    ≡ some (pos 2800)
unfolding defs release_reservation apply_reservation release_row apply_row record_wallet_funding
ledger_calls_end = refl

abbrev deposit_journal : PostJournalInput
deposit_journal = record {
  tenant_id = 7;
  reference_type = funding;
  reference_id = 1;
  entries = debit 2 (pos 700) ∷ credit 3 (pos 700) ∷ [];
  actor_id = none;
}

post_journal_balanced_example : HasBalancedBooks (post_journal deposit_journal start).1
post_journal_balanced_example = post_journal_balanced deposit_journal start start-IsHealthy.balanced

abbrev posted : LedgerDb
posted = (post_journal deposit_journal start).1
