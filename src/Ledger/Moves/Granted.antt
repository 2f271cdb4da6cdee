-- ===== src/Ledger/Moves/Granted.antt =====
-- packages/ledger/src/wallet.ts, `reserveFunds`: when funds are set aside, and what is written.
use z_float_2_main.Prelude.{◌≡◌, refl, true, false, Option, none, some, ◌∷◌, ◌+◌, ◌==◌, any, arith}
use z_float_2_main.Prelude.Int.{◌+ℤ◌, ◌-ℤ◌, ◌≤ℤ◌}
use z_float_2_main.Exec.{ok}
use z_float_2_main.Exec.Post.{
  Post, Post-pure, Post-raise, Post-gets, Post-modify, Post-raise_if, Post-bind, Post-imp, Post-any,
  Post-transaction, returned,
}
use z_float_2_main.Table.{find, update}
use z_float_2_main.Ledger.Tables.{LedgerDb, Wallet, held}
use z_float_2_main.Ledger.Reservation.{
  ReserveInput, Reserved, insert_reservation, can_reserve, set_aside, after_update, attempt_reserve,
  finish_reserve, reserve_funds,
}
use z_float_2_main.Ledger.Moves.Rules.{update_wallet-Post, append-Post}

-- From `s` to `t` the amount was set aside for the payment, once.
pub record IsSetAside (i : ReserveInput) (s t : LedgerDb) : Type 0 where
  pub wallet : Wallet
  pub there : find i.wallet_id s.wallets ≡ some wallet
  pub owned : wallet.tenant_id ≡ i.tenant_id
  pub covered : i.amount_minor ≤ℤ wallet.available_minor
  pub first : any (λ row. row.1.payment_id == i.payment_id) s.wallet_reservations ≡ false
  pub wallets :
      t.wallets
      ≡ update i.wallet_id
          (λ w. record w {
            available_minor = w.available_minor -ℤ i.amount_minor;
            reserved_minor = w.reserved_minor +ℤ i.amount_minor;
          })
          s.wallets
  pub reservations :
      t.wallet_reservations
      ≡ (
        s.next_id,
        record {
          tenant_id = i.tenant_id;
          payment_id = i.payment_id;
          wallet_id = i.wallet_id;
          amount_minor = i.amount_minor;
          status = held;
        },
      )
        ∷ s.wallet_reservations
  pub drawn : t.next_id ≡ s.next_id + 1

module _ (i : ReserveInput) (s : LedgerDb) where
  -- What an attempt leaves, granted or denied.
  abbrev pub Granted : Option Reserved → LedgerDb → Type 0
  Granted none t = t ≡ s
  Granted (some r) t = IsSetAside i s t × (r.reservation_id ≡ s.next_id)

  after_update-Post :
      (w u : Wallet)
      → find i.wallet_id s.wallets ≡ some w
      → can_reserve i w ≡ true
      → Post Granted
          (after_update i (some u))
          (record s { wallets = update i.wallet_id (set_aside i.amount_minor) s.wallets })
  unfolding after_update insert_reservation
  after_update-Post w u there covered =
      let s' : LedgerDb = record s {
        wallets = update i.wallet_id (set_aside i.amount_minor) s.wallets;
      } in
      Post-bind _ _ s' (
        Post-bind _ _ s' (
          Post-gets _ s' (
            Post-bind _ _ s' (
              Post-raise_if _ _ s' λ first. Post-bind _ _ s' (
                Post-gets _ s' (
                  Post-bind _ _ s' (
                    Post-modify _ s' (
                      Post-pure _ _ (
                        Post-bind _ _ _ (
                          append-Post _ _ λ v _. Post-pure _ _ (
                            record {
                              wallet = w;
                              there = there;
                              owned = ground arith;
                              covered = ground arith;
                              first = first;
                              wallets = refl;
                              reservations = refl;
                              drawn = refl;
                            },
                            refl,
                          )))))))))))

  denied : Post Granted (after_update i none) s
  unfolding after_update
  denied = Post-pure none s refl

  pub attempt_reserve-Post : Post Granted (attempt_reserve i) s
  unfolding attempt_reserve
  attempt_reserve-Post = Post-transaction _ s (
      Post-bind _ _ s (
        update_wallet-Post i.wallet_id (can_reserve i) (set_aside i.amount_minor) s (λ _. denied)
          (λ _ _ _. denied)
          λ w there covered. after_update-Post w (set_aside i.amount_minor w) there covered))

  finish_reserve-Post :
      (o : Option Reserved) (t : LedgerDb)
      → Granted o t
      → Post (λ r u. Granted (some r) u) (finish_reserve i o) t
  unfolding finish_reserve
  finish_reserve-Post (some r) t h = Post-pure r t h
  finish_reserve-Post none t h = Post-bind _ _ t (Post-any _ t λ _ u. Post-raise _ u)

  reserve_funds-Post : Post (λ r t. Granted (some r) t) (reserve_funds i) s
  unfolding reserve_funds
  reserve_funds-Post = Post-bind _ _ s (Post-imp _ s attempt_reserve-Post finish_reserve-Post)

-- When `reserveFunds` returns, the wallet exists, is of the tenant and covers the amount; no
-- reservation of the payment was there before; one identifier was drawn; the amount moved from
-- available to reserved in that wallet and no other; and one reservation was added, held, which is
-- the one returned.
pub reserve_funds-IsSetAside :
    (i : ReserveInput) (s t : LedgerDb) (r : Reserved)
    → reserve_funds i s ≡ (ok r, t)
    → IsSetAside i s t × (r.reservation_id ≡ s.next_id)
reserve_funds-IsSetAside i s t r ran = returned (reserve_funds-Post i s) ran
