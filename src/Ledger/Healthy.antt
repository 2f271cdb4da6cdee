-- ===== src/Ledger/Healthy.antt =====
-- The invariant of the ledger's tables (packages/ledger/src).
use z_float_2_main.Prelude.{ℕ, inl, inr, List, [], ◌∷◌}
use z_float_2_main.Prelude.Int.{ℤ}
use z_float_2_main.Exec.Keeps.{
  Keeps, Keeps-modify, Keeps-transaction, Keeps-guard, Keeps-then, Keeps-bind, Keeps-gets,
  keeps_rules,
}
use z_float_2_main.Ledger.Tables.{LedgerDb}
use z_float_2_main.Ledger.Journal.{
  EntryLine, PostJournalInput, post_journal, insert_entries, insert_journal, with_entry,
  take_snapshots,
}
use z_float_2_main.Ledger.Reservation.{
  ReserveInput, reserve_funds, release_reservation, apply_reservation,
}
use z_float_2_main.Ledger.Moves.{Outcome}
use z_float_2_main.Ledger.Moves.Commands.{reserve_funds-Outcome}
use z_float_2_main.Ledger.Moves.Endings.{release_reservation-Outcome, apply_reservation-Outcome}
use z_float_2_main.Ledger.Sound.{IsSound, Outcome-IsSound}
use z_float_2_main.Ledger.Books.{HasBalancedBooks, post_journal-HasBalancedBooks}
use z_float_2_main.Ledger.Postings.{IsPostable}

module _ (opening : ℕ → ℤ) where
  -- Every wallet is accounted for, and every journal balances.
  pub record IsHealthy (s : LedgerDb) : Type 0 where
    pub sound : IsSound opening s
    pub balanced : HasBalancedBooks s

  insert_entries-IsSound :
      (j : ℕ) (es : List EntryLine) → Keeps (IsSound opening) (insert_entries j es)
  unfolding insert_entries
  insert_entries-IsSound j [] = search keeps_rules
  insert_entries-IsSound j (e ∷ es) = Keeps-guard _ _ _ (
      Keeps-guard _ _ _
        (Keeps-then _ _ (Keeps-modify (with_entry j e) (λ s h. h)) (insert_entries-IsSound j es)))

  post_journal-IsSound : (i : PostJournalInput) → Keeps (IsSound opening) (post_journal i)
  unfolding post_journal
  post_journal-IsSound i = Keeps-transaction _ (
      Keeps-guard _ _ _ (
        Keeps-guard _ _ _ (
          Keeps-bind _ _ (Keeps-gets _) λ id.
            Keeps-then _ _ (Keeps-modify (insert_journal i) (λ s h. h)) (
              Keeps-then _ _ (insert_entries-IsSound id i.entries) (
                Keeps-then _ _ (Keeps-modify (take_snapshots i.entries) (λ s h. h))
                  (search keeps_rules))))))

  pub IsHealthy-IsPostable : IsPostable IsHealthy
  IsHealthy-IsPostable = record {
    accounts = λ s n a h. record { sound = h.sound; balanced = h.balanced };
    postings = λ i. record {
      at = λ s h. record {
        sound = (post_journal-IsSound i).at s h.sound;
        balanced = (post_journal-HasBalancedBooks i).at s h.balanced;
      };
    };
  }

  pub Outcome-IsHealthy : {s s' : LedgerDb} → Outcome s s' → IsHealthy s → IsHealthy s'
  Outcome-IsHealthy (inl same) h = rw same h
  Outcome-IsHealthy (inr m) h = record {
    sound = Outcome-IsSound opening (inr m) h.sound;
    balanced = rw m.books h.balanced;
  }

  -- Reserving funds, granted or denied, keeps the ledger's tables healthy.
  pub reserve_funds-Keeps : (i : ReserveInput) → Keeps IsHealthy (reserve_funds i)
  reserve_funds-Keeps i = record { at = λ s h. Outcome-IsHealthy (reserve_funds-Outcome i s) h }

  -- So does releasing a reservation.
  pub release_reservation-Keeps : (id : ℕ) → Keeps IsHealthy (release_reservation id)
  release_reservation-Keeps id = record {
    at = λ s h. Outcome-IsHealthy (release_reservation-Outcome id s) h;
  }

  -- So does applying one.
  pub apply_reservation-Keeps : (id : ℕ) → Keeps IsHealthy (apply_reservation id)
  apply_reservation-Keeps id = record {
    at = λ s h. Outcome-IsHealthy (apply_reservation-Outcome id s) h;
  }

-- Reserving funds, granted, denied or refused, keeps the ledger's tables healthy: every balance is
-- what the replay of the wallet's ledger gives, the reserved balance of every wallet is the sum of
-- its held reservations, and every journal balances.
pub reserve_funds-IsHealthy :
    (opening : ℕ → ℤ) (i : ReserveInput) (s : LedgerDb)
    → IsHealthy opening s
    → IsHealthy opening (reserve_funds i s).1
reserve_funds-IsHealthy opening i s h = (reserve_funds-Keeps opening i).at s h

-- Releasing a reservation and applying it, held or not, each keep the ledger's tables healthy.
pub end_reservation-IsHealthy :
    (opening : ℕ → ℤ) (id : ℕ) (s : LedgerDb)
    → IsHealthy opening s
    → IsHealthy opening (release_reservation id s).1 × IsHealthy opening (apply_reservation id s).1
end_reservation-IsHealthy opening id s h =
    ((release_reservation-Keeps opening id).at s h, (apply_reservation-Keeps opening id).at s h)
