-- ===== src/Ledger/Moves/Endings.antt =====
-- The movements of `releaseReservation`, `applyReservation` and of money that comes in
-- (packages/ledger/src/wallet.ts).
use z_float_2_main.Prelude.{ℕ, ◌≡◌, refl, sym, inl, inr, Option, none, some, ◌∷◌, true, false}
use z_float_2_main.Prelude.Int.{pos, ◌+ℤ◌, int_laws, +ℤ-zero}
use z_float_2_main.Exec.{◌>>◌}
use z_float_2_main.Exec.Post.{
  Post, Post-pure, Post-gets, Post-if, Post-modify, Post-bind, transaction_ends,
}
use z_float_2_main.Table.{find, update}
use z_float_2_main.Ledger.Tables.{LedgerDb, Wallet, WalletReservation, is_held}
use z_float_2_main.Ledger.Wallet.{
  EntryInput, entry_of, update_wallet, any_wallet, neg_ℤ, FundingInput, record_wallet_funding,
}
use z_float_2_main.Ledger.Reservation.{
  give_back, take_out, deposit, set_released, set_applied, release_row, release_reservation,
  apply_row, apply_reservation,
}
use z_float_2_main.Ledger.Moves.{Moves, Outcome, rows_of_update, held_by-update}
use z_float_2_main.Ledger.Moves.Rules.{update_wallet-Post, append-Post}

module _ (id : ℕ) (s : LedgerDb) where
  released-Moves :
      (res : WalletReservation) (i : EntryInput) (u : Wallet) (f : Wallet → Wallet)
      (g : WalletReservation → WalletReservation)
      → find id s.wallet_reservations ≡ some res
      → is_held res.status ≡ true
      → is_held (g res).status ≡ false
      → i.wallet_id ≡ res.wallet_id
      → i.delta_reserved_minor ≡ neg_ℤ res.amount_minor
      → ((w : Wallet)
          → ((f w).available_minor ≡ w.available_minor +ℤ i.delta_available_minor)
            × ((f w).reserved_minor ≡ w.reserved_minor +ℤ i.delta_reserved_minor))
      → Moves s (record s {
        wallets = update i.wallet_id f s.wallets;
        wallet_reservations = update id g s.wallet_reservations;
        wallet_ledger_entries = entry_of i u ∷ s.wallet_ledger_entries;
      })
  released-Moves res i u f g e h k same diff shift = record {
    entry = entry_of i u;
    logged = refl;
    books = refl;
    held_diff = λ v. rw (same, diff) (held_by-update v id g s.wallet_reservations res e h k);
    rows =
        rows_of_update i.wallet_id f i.delta_available_minor i.delta_reserved_minor s.wallets shift;
  }

  release_row-Outcome :
      (found : Option WalletReservation)
      → find id s.wallet_reservations ≡ found
      → Post (λ _ t. Outcome s t) (release_row id found) s
  unfolding release_row
  release_row-Outcome none e = Post-pure tt s (inl refl)
  release_row-Outcome (some res) e =
      Post-if (is_held res.status) _ _ s
        (λ h. Post-bind _ _ s (
          update_wallet-Post _ _ _ s
            (λ no_row. Post-bind _ _ s (Post-modify _ s (append-Post _ _ λ w there. (cc))))
            (λ _ _ never. (cc))
            (λ _ _ _. Post-bind _ _ _ (
              Post-modify _ _ (
                append-Post _ _ λ u _. inr (
                  released-Moves res _ u (give_back res.amount_minor) set_released e h refl refl
                    refl (λ w. omega int_laws)))))))
        (λ _. Post-pure tt s (inl refl))

  apply_row-Outcome :
      (found : Option WalletReservation)
      → find id s.wallet_reservations ≡ found
      → Post (λ _ t. Outcome s t) (apply_row id found) s
  unfolding apply_row
  apply_row-Outcome none e = Post-pure tt s (inl refl)
  apply_row-Outcome (some res) e =
      Post-if (is_held res.status) _ _ s
        (λ h. Post-bind _ _ s (
          update_wallet-Post _ _ _ s
            (λ no_row. Post-bind _ _ s (Post-modify _ s (append-Post _ _ λ w there. (cc))))
            (λ _ _ never. (cc))
            (λ _ _ _. Post-bind _ _ _ (
              Post-modify _ _ (
                append-Post _ _ λ u _. inr (
                  released-Moves res _ u (take_out res.amount_minor) set_applied e h refl refl refl
                    (λ w. omega int_laws)))))))
        (λ _. Post-pure tt s (inl refl))

  -- `releaseReservation`
  pub release_reservation-Outcome : Outcome s (release_reservation id s).1
  unfolding release_reservation
  release_reservation-Outcome =
      transaction_ends (Outcome s) _ s (inl refl)
        (Post-bind _ _ s (Post-gets _ s (release_row-Outcome (find id s.wallet_reservations) refl)))

  -- `applyReservation`
  pub apply_reservation-Outcome : Outcome s (apply_reservation id s).1
  unfolding apply_reservation
  apply_reservation-Outcome =
      transaction_ends (Outcome s) _ s (inl refl)
        (Post-bind _ _ s (Post-gets _ s (apply_row-Outcome (find id s.wallet_reservations) refl)))

-- Money that comes in: the balance is raised, then the movement is put on record. No row is
-- written for a wallet that is not there, and the second step throws.
pub deposit-Outcome :
    (i : FundingInput) (s : LedgerDb)
    → Post
        (λ _ t. Outcome s t)
        (update_wallet i.wallet_id any_wallet (deposit i.amount_minor) >> record_wallet_funding i)
        s
unfolding record_wallet_funding
deposit-Outcome i s = Post-bind _ _ s (
    update_wallet-Post _ _ _ s (λ no_row. append-Post _ s λ w there. (cc)) (λ _ _ never. (cc))
      (λ _ _ _. append-Post _ _ λ u _. inr (record {
        entry = _;
        logged = refl;
        books = refl;
        held_diff = λ v. grind (int_laws, +ℤ-zero);
        rows =
            rows_of_update i.wallet_id (deposit i.amount_minor) i.amount_minor (pos 0) s.wallets
              (λ w. (refl, sym (+ℤ-zero w.reserved_minor)));
      })))
