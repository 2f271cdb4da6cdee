-- ===== src/Ledger/Vault/Commands.antt =====
-- Each command of packages/ledger/src/wallet.ts as an action of the vault.
use z_float_2_main.Prelude.{
  ℕ, ◌<◌, ◌≡◌, refl, sym, ◌∙◌, ap, inl, inr, false, Option, none, some, arith, All-imp,
}
use mathlib.Core.Path.{subst}
use z_float_2_main.Exec.{Result, ok, err, ◌>>=◌, ◌>>◌}
use z_float_2_main.Table.{find, update}
use z_float_2_main.Ledger.Tables.{LedgerDb, Wallet, WalletReservation, is_held}
use z_float_2_main.Exec.{Code, insufficient_funds}
use z_float_2_main.Exec.Post.{
  Post, OnOk, Post-pure, Post-gets, Post-if, Post-modify, Post-bind, transaction_ends, raise_last,
  transaction_atomic,
}
use z_float_2_main.Ledger.Wallet.{
  EntryInput, append_wallet_ledger_entry, update_wallet, any_wallet, FundingInput,
  record_wallet_funding,
}
use z_float_2_main.Ledger.Moves.Rules.{update_wallet-Post, append-Post}
use z_float_2_main.Ledger.Reservation.{
  ReserveInput, Reserved, give_back, take_out, deposit, set_released, set_applied, attempt_reserve,
  finish_reserve, reserve_funds, release_row, release_reservation, apply_row, apply_reservation,
}
use z_float_2_main.Ledger.Moves.Granted.{IsSetAside, Granted, attempt_reserve-Post}
use z_float_2_main.Ledger.Vault.{
  Purse, Hold, Action, open_hold, give_hold_back, take_hold, pay_in, change, put, act, IsAllowed,
  set_aside_purse, give_back_purse, take_out_purse, pay_in_purse,
}
use z_float_2_main.Ledger.Vault.View.{
  purse_of, hold_of, open_of, find-undrawn, update-AreDrawn, purse-update, hold-update, same_vault,
  purse_there, hold_there, vault_of, AreDrawn, Refines,
}

-- `reserveFunds`, where it returns, opens a hold.
granted-Refines : (i : ReserveInput) (s t : LedgerDb) → AreDrawn s → IsSetAside i s t → Refines s t
unfolding find
granted-Refines i s t h g =
    let hold : Hold = record { wallet_id = i.wallet_id; amount = i.amount_minor } in
    (
      inr (
        open_hold s.next_id hold,
        (
          ap open_of (find-undrawn s.next_id s.wallet_reservations h),
          purse_of g.wallet,
          purse_there i.wallet_id g.wallet s.wallets g.there,
          g.covered,
        ),
        same_vault
            (λ k.
              rw g.wallets (
                purse-update i.wallet_id _ (set_aside_purse i.amount_minor) s.wallets (λ w. refl)
                  k))
            (λ k. rw g.reservations (ground arith)),
      ),
      rw g.reservations (
        omega (arith, g.drawn),
        All-imp (λ row. row.0 < s.next_id) (λ row. row.0 < t.next_id) s.wallet_reservations
            (λ row l. omega (arith, g.drawn)) h,
      ),
    )

-- A command that ends a held reservation.
module _ (id : ℕ) (s : LedgerDb) (res : WalletReservation) (f : Wallet → Wallet)
    (g : WalletReservation → WalletReservation) where
  ended-Post :
      (p : Purse → Purse) (a : Action) (i : EntryInput)
      → ((v : Wallet) → purse_of (f v) ≡ p (purse_of v))
      → ((r : WalletReservation) → is_held (g r).status ≡ false)
      → act a (vault_of s) ≡ record {
        purses = change res.wallet_id p (vault_of s).purses;
        holds = put id none (vault_of s).holds;
      }
      → IsAllowed a (vault_of s)
      → AreDrawn s
      → Post
          (λ _ t. Refines s t)
          (append_wallet_ledger_entry i)
          (record s {
            wallets = update res.wallet_id f s.wallets;
            wallet_reservations = update id g s.wallet_reservations;
          })
  ended-Post p a i fits ends same allowed h = append-Post i _ λ u _. (
    inr (
      a,
      allowed,
      same_vault (purse-update res.wallet_id f p s.wallets fits)
            (hold-update id g s.wallet_reservations ends)
          ∙ sym same,
    ),
    update-AreDrawn s.next_id id g s.wallet_reservations h,
  )

module _ (s : LedgerDb) (h : AreDrawn s) where
  unchanged : Refines s s
  unchanged = (inl refl, h)

  -- A denial is put on record, and nothing else.
  denial-Refines : (i : EntryInput) → Post (λ _ t. Refines s t) (append_wallet_ledger_entry i) s
  denial-Refines i = append-Post i s λ w e. (inl refl, h)

  denied-Refines : (i : ReserveInput) (t : LedgerDb) → t ≡ s → Refines s (finish_reserve i none t).1
  unfolding finish_reserve
  denied-Refines i t g =
      subst (Refines s) (sym (raise_last Reserved _ insufficient_funds t))
        (rw g (transaction_ends (Refines s) _ s unchanged (denial-Refines _)))

  finish-Refines :
      (i : ReserveInput) (r : Result (Option Reserved)) (t : LedgerDb)
      → OnOk (Granted i s) (r, t)
      → ((c : Code) → r ≡ err c → t ≡ s)
      → Refines s (((λ _. (r, t)) >>= finish_reserve i) s).1
  unfolding ◌>>=◌ finish_reserve
  finish-Refines i (ok (some r)) t g k = granted-Refines i s t h g.0
  finish-Refines i (err c) t g k = rw (k c refl) unchanged
  finish-Refines i (ok none) t g k = denied-Refines i t g

  attempt_throws :
      (i : ReserveInput) (c : Code) → (attempt_reserve i s).0 ≡ err c → (attempt_reserve i s).1 ≡ s
  unfolding attempt_reserve
  attempt_throws i c e = transaction_atomic _ (λ j. (e j, (attempt_reserve i s).1))

  -- `reserveFunds`, whether it returns or throws.
  pub reserve_funds-Refines : (i : ReserveInput) → Refines s (reserve_funds i s).1
  unfolding reserve_funds ◌>>=◌
  reserve_funds-Refines i =
      finish-Refines i (attempt_reserve i s).0 (attempt_reserve i s).1 (attempt_reserve-Post i s).at
        (attempt_throws i)

  release_row-Refines :
      (id : ℕ) (found : Option WalletReservation)
      → find id s.wallet_reservations ≡ found
      → Post (λ _ t. Refines s t) (release_row id found) s
  unfolding release_row
  release_row-Refines id none e = Post-pure tt s unchanged
  release_row-Refines id (some res) e =
      Post-if (is_held res.status) _ _ s
        (λ live. Post-bind _ _ s (
          update_wallet-Post _ _ _ s
            (λ no_row. Post-bind _ _ s (Post-modify _ s (append-Post _ _ λ w there. (cc))))
            (λ _ _ never. (cc))
            (λ w there _. Post-bind _ _ _ (
              Post-modify _ _ (
                ended-Post id s res (give_back res.amount_minor) set_released
                  (give_back_purse res.amount_minor) (give_hold_back id (hold_of res)) _ (λ v. refl)
                  (λ r. refl) refl
                  (
                    hold_there id res s.wallet_reservations e live,
                    purse_of w,
                    purse_there res.wallet_id w s.wallets there,
                  )
                  h)))))
        (λ _. Post-pure tt s unchanged)

  apply_row-Refines :
      (id : ℕ) (found : Option WalletReservation)
      → find id s.wallet_reservations ≡ found
      → Post (λ _ t. Refines s t) (apply_row id found) s
  unfolding apply_row
  apply_row-Refines id none e = Post-pure tt s unchanged
  apply_row-Refines id (some res) e =
      Post-if (is_held res.status) _ _ s
        (λ live. Post-bind _ _ s (
          update_wallet-Post _ _ _ s
            (λ no_row. Post-bind _ _ s (Post-modify _ s (append-Post _ _ λ w there. (cc))))
            (λ _ _ never. (cc))
            (λ w there _. Post-bind _ _ _ (
              Post-modify _ _ (
                ended-Post id s res (take_out res.amount_minor) set_applied
                  (take_out_purse res.amount_minor) (take_hold id (hold_of res)) _ (λ v. refl)
                  (λ r. refl) refl
                  (
                    hold_there id res s.wallet_reservations e live,
                    purse_of w,
                    purse_there res.wallet_id w s.wallets there,
                  )
                  h)))))
        (λ _. Post-pure tt s unchanged)

  pub release_reservation-Refines : (id : ℕ) → Refines s (release_reservation id s).1
  unfolding release_reservation
  release_reservation-Refines id = transaction_ends (Refines s) _ s unchanged (
      Post-bind _ _ s (Post-gets _ s (release_row-Refines id (find id s.wallet_reservations) refl)))

  pub apply_reservation-Refines : (id : ℕ) → Refines s (apply_reservation id s).1
  unfolding apply_reservation
  apply_reservation-Refines id =
      transaction_ends (Refines s) _ s unchanged (
        Post-bind _ _ s (Post-gets _ s (apply_row-Refines id (find id s.wallet_reservations) refl)))

  pub deposit-Refines :
      (i : FundingInput)
      → Post
          (λ _ t. Refines s t)
          (update_wallet i.wallet_id any_wallet (deposit i.amount_minor) >> record_wallet_funding i)
          s
  unfolding record_wallet_funding
  deposit-Refines i = Post-bind _ _ s (
      update_wallet-Post _ _ _ s (λ no_row. append-Post _ s λ w there. (cc)) (λ _ _ never. (cc))
        (λ w there _. append-Post _ _ λ u _. (
          inr (
            pay_in i.wallet_id i.amount_minor,
            (purse_of w, purse_there i.wallet_id w s.wallets there),
            same_vault
                (λ k.
                  purse-update i.wallet_id (deposit i.amount_minor) (pay_in_purse i.amount_minor)
                    s.wallets (λ v. refl) k)
                (λ k. refl),
          ),
          h,
        )))
