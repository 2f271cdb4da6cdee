-- ===== src/Ledger/Moves/Commands.antt =====
-- The movement of `reserveFunds` (packages/ledger/src/wallet.ts).
use z_float_2_main.Prelude.{◌+◌, ◌≡◌, refl, inl, inr, Option, none, some, ◌∷◌, arith}
use z_float_2_main.Prelude.Int.{pos, ◌+ℤ◌, int_laws, +ℤ-zero}
use z_float_2_main.Exec.{Exec, Result, ok, err, transaction, ◌>>=◌, insufficient_funds}
use z_float_2_main.Exec.Post.{
  Post, OnOk, Post-pure, Post-gets, Post-modify, Post-raise_if, Post-bind, transaction_ends,
  raise_last,
}
use z_float_2_main.Table.{update}
use z_float_2_main.Ledger.Tables.{LedgerDb, Wallet, reserve, payment}
use z_float_2_main.Ledger.Wallet.{
  EntryInput, entry_of, append_wallet_ledger_entry, update_wallet, neg_ℤ,
}
use z_float_2_main.Ledger.Reservation.{
  ReserveInput, Reserved, can_reserve, set_aside, reservation_of, insert_reservation, after_update,
  attempt_reserve, finish_reserve, reserve_funds,
}
use z_float_2_main.Ledger.Moves.{held_by, Moves, Outcome, rows_of_update}
use z_float_2_main.Ledger.Moves.Rules.{update_wallet-Post, append-Post}

-- An entry with no deltas records a denial.
append-Outcome :
    (i : EntryInput) (s : LedgerDb)
    → i.delta_available_minor ≡ pos 0
    → i.delta_reserved_minor ≡ pos 0
    → Post (λ _ t. Outcome s t) (append_wallet_ledger_entry i) s
append-Outcome i s a b = append-Post i s λ w e. inr (record {
  entry = entry_of i w;
  logged = refl;
  books = refl;
  held_diff = λ v. grind (int_laws, +ℤ-zero);
  rows = λ v w' h. (w', h, grind (arith, +ℤ-zero), grind (arith, +ℤ-zero));
})

module _ (i : ReserveInput) (s : LedgerDb) where
  -- What the first transaction comes to.
  abbrev Attempted : Result (Option Reserved) × LedgerDb → Type 0
  Attempted (ok none, t) = t ≡ s
  Attempted (ok (some r), t) = Moves s t
  Attempted (err c, t) = t ≡ s

  abbrev Within : Option Reserved → LedgerDb → Type 0
  Within none t = t ≡ s
  Within (some r) t = Moves s t

  Attempted-of :
      (r : Result (Option Reserved)) (t : LedgerDb)
      → OnOk Within (r, t)
      → Attempted (transaction (λ _. (r, t)) s)
  unfolding transaction
  Attempted-of (ok none) t h = h
  Attempted-of (ok (some r)) t h = h
  Attempted-of (err c) t h = refl

  set_aside_shift :
      (w : Wallet)
      → ((set_aside i.amount_minor w).available_minor ≡ w.available_minor +ℤ neg_ℤ i.amount_minor)
        × ((set_aside i.amount_minor w).reserved_minor ≡ w.reserved_minor +ℤ i.amount_minor)
  set_aside_shift w = omega int_laws

  abbrev reserve_entry : EntryInput
  reserve_entry = record {
    tenant_id = i.tenant_id;
    wallet_id = i.wallet_id;
    entry_type = reserve;
    ref_type = payment;
    ref_id = i.payment_id;
    amount_minor = i.amount_minor;
    delta_available_minor = neg_ℤ i.amount_minor;
    delta_reserved_minor = i.amount_minor;
  }

  moved :
      (u : Wallet)
      → Moves s (record s {
        next_id = s.next_id + 1;
        wallets = update i.wallet_id (set_aside i.amount_minor) s.wallets;
        wallet_reservations = (s.next_id, reservation_of i) ∷ s.wallet_reservations;
        wallet_ledger_entries = entry_of reserve_entry u ∷ s.wallet_ledger_entries;
      })
  unfolding held_by
  moved u = record {
    entry = entry_of reserve_entry u;
    logged = refl;
    books = refl;
    held_diff = λ v. omega int_laws;
    rows =
        rows_of_update i.wallet_id (set_aside i.amount_minor) (neg_ℤ i.amount_minor) i.amount_minor
          s.wallets set_aside_shift;
  }

  denied-Post : (t : LedgerDb) → t ≡ s → Post Within (after_update i none) t
  unfolding after_update
  denied-Post t h = Post-pure none t h

  reserved-Moves :
      (w : Wallet)
      → Post Within
          (after_update i (some w))
          (record s { wallets = update i.wallet_id (set_aside i.amount_minor) s.wallets })
  unfolding after_update insert_reservation
  reserved-Moves w =
      let s' : LedgerDb = record s {
        wallets = update i.wallet_id (set_aside i.amount_minor) s.wallets;
      } in
      Post-bind _ _ s' (
        Post-bind _ _ s' (
          Post-gets _ s' (
            Post-bind _ _ s' (
              Post-raise_if _ _ s' λ _. Post-bind _ _ s' (
                Post-gets _ s' (
                  Post-bind _ _ s' (
                    Post-modify _ s' (
                      Post-pure _ _ (
                        Post-bind _ _ _
                          (append-Post _ _ λ u there. Post-pure _ _ (moved u)))))))))))

  attempt-Attempted : Attempted (attempt_reserve i s)
  unfolding attempt_reserve transaction
  attempt-Attempted =
      let body : Exec LedgerDb (Option Reserved) =
        update_wallet i.wallet_id (can_reserve i) (set_aside i.amount_minor) >>= after_update i in
      Attempted-of (body s).0 (body s).1
        (Post-bind _ _ s (
          update_wallet-Post i.wallet_id (can_reserve i) (set_aside i.amount_minor) s
            (λ _. denied-Post s refl) (λ _ _ _. denied-Post s refl)
            (λ w _ _. reserved-Moves (set_aside i.amount_minor w)))).at

  finish-Outcome :
      (r : Result (Option Reserved)) (t : LedgerDb)
      → Attempted (r, t)
      → Outcome s (((λ _. (r, t)) >>= finish_reserve i) s).1
  unfolding ◌>>=◌ finish_reserve
  finish-Outcome (ok (some r)) t h = inr h
  finish-Outcome (err c) t h = inl h
  finish-Outcome (ok none) t h =
      rw (raise_last Reserved _ insufficient_funds t)
        (rw h (transaction_ends (Outcome s) _ s (inl refl) (append-Outcome _ s refl refl)))

  -- `reserveFunds`, granted, denied or refused by a constraint.
  pub reserve_funds-Outcome : Outcome s (reserve_funds i s).1
  unfolding reserve_funds ◌>>=◌
  reserve_funds-Outcome =
      finish-Outcome (attempt_reserve i s).0 (attempt_reserve i s).1 attempt-Attempted
