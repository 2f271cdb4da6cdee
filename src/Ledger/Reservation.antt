-- ===== src/Ledger/Reservation.antt =====
-- packages/ledger/src/wallet.ts: reserving funds, and releasing or applying a reservation.
use z_float_2_main.Prelude.{ℕ, ◌+◌, Option, none, some, ◌∷◌, ◌&&◌, Bool, ◌==◌, if◌then◌else◌, any}
use z_float_2_main.Prelude.Int.{ℤ, pos, ◌+ℤ◌, ◌-ℤ◌, leb_ℤ}
use z_float_2_main.Exec.{
  Exec, pure, raise, gets, transaction, modify, raise_if, ◌>>=◌, ◌>>◌, insufficient_funds,
  constraint,
}
use z_float_2_main.Table.{find, update}
use z_float_2_main.Ledger.Tables.{
  LedgerDb, Wallet, WalletReservation, reserve, reserve_denied, release, apply, payment, held,
  released, applied, is_held,
}
use z_float_2_main.Ledger.Wallet.{
  neg_ℤ, update_wallet, any_wallet, append_wallet_ledger_entry, WalletBalance, balance_of,
}

pub record ReserveInput : Type 0 where
  pub tenant_id : ℕ
  pub payment_id : ℕ
  pub wallet_id : ℕ
  pub amount_minor : ℤ

pub record Reserved : Type 0 where
  pub reservation_id : ℕ
  pub balance_after : WalletBalance

abbrev pub reservation_of : ReserveInput → WalletReservation
reservation_of i = record {
  tenant_id = i.tenant_id;
  payment_id = i.payment_id;
  wallet_id = i.wallet_id;
  amount_minor = i.amount_minor;
  status = held;
}

-- INSERT INTO wallet_reservations, under `wallet_reservations_payment_uidx`.
unfoldable pub insert_reservation : ReserveInput → Exec LedgerDb ℕ
insert_reservation i = do
  taken ← gets (λ s. any (λ row. row.1.payment_id == i.payment_id) s.wallet_reservations)
  raise_if taken constraint
  id ← gets (λ s. s.next_id)
  modify (λ s. record s {
    next_id = s.next_id + 1;
    wallet_reservations = (s.next_id, reservation_of i) ∷ s.wallet_reservations;
  })
  pure id

-- The WHERE clause of the guarded update.
abbrev pub can_reserve : ReserveInput → Wallet → Bool
can_reserve i w = w.tenant_id == i.tenant_id && leb_ℤ i.amount_minor w.available_minor

abbrev pub set_aside : ℤ → Wallet → Wallet
set_aside a w = record w {
  available_minor = w.available_minor -ℤ a;
  reserved_minor = w.reserved_minor +ℤ a;
}

-- What the first transaction of `reserveFunds` does once the update has returned its rows.
unfoldable pub after_update : ReserveInput → Option Wallet → Exec LedgerDb (Option Reserved)
after_update i none = pure none
after_update i (some w) = do
  id ← insert_reservation i
  append_wallet_ledger_entry (record {
    tenant_id = i.tenant_id;
    wallet_id = i.wallet_id;
    entry_type = reserve;
    ref_type = payment;
    ref_id = i.payment_id;
    amount_minor = i.amount_minor;
    delta_available_minor = neg_ℤ i.amount_minor;
    delta_reserved_minor = i.amount_minor;
  })
  pure (some (record { reservation_id = id; balance_after = balance_of i.wallet_id w }))

unfoldable pub attempt_reserve : ReserveInput → Exec LedgerDb (Option Reserved)
attempt_reserve i = transaction (do
  updated ← update_wallet i.wallet_id (can_reserve i) (set_aside i.amount_minor)
  after_update i updated)

-- A denial is put on record in a transaction of its own, then thrown.
unfoldable pub finish_reserve : ReserveInput → Option Reserved → Exec LedgerDb Reserved
finish_reserve i (some r) = pure r
finish_reserve i none = do
  transaction (
      append_wallet_ledger_entry (record {
        tenant_id = i.tenant_id;
        wallet_id = i.wallet_id;
        entry_type = reserve_denied;
        ref_type = payment;
        ref_id = i.payment_id;
        amount_minor = i.amount_minor;
        delta_available_minor = pos 0;
        delta_reserved_minor = pos 0;
      }))
  raise insufficient_funds

-- `reserveFunds`
unfoldable pub reserve_funds : ReserveInput → Exec LedgerDb Reserved
reserve_funds i = do attempt ← attempt_reserve i; finish_reserve i attempt

abbrev pub set_released : WalletReservation → WalletReservation
set_released r = record r { status = released }

abbrev pub set_applied : WalletReservation → WalletReservation
set_applied r = record r { status = applied }

abbrev pub give_back : ℤ → Wallet → Wallet
give_back a w = record w {
  available_minor = w.available_minor +ℤ a;
  reserved_minor = w.reserved_minor -ℤ a;
}

abbrev pub take_out : ℤ → Wallet → Wallet
take_out a w = record w { reserved_minor = w.reserved_minor -ℤ a }

-- The body of `releaseReservation`, at the row that the SELECT finds.
unfoldable pub release_row : ℕ → Option WalletReservation → Exec LedgerDb (Unit {0})
release_row id none = pure tt
release_row id (some res) =
    if is_held res.status
    then (do
      update_wallet res.wallet_id any_wallet (give_back res.amount_minor)
      modify (λ s. record s { wallet_reservations = update id set_released s.wallet_reservations })
      append_wallet_ledger_entry (record {
        tenant_id = res.tenant_id;
        wallet_id = res.wallet_id;
        entry_type = release;
        ref_type = payment;
        ref_id = res.payment_id;
        amount_minor = res.amount_minor;
        delta_available_minor = res.amount_minor;
        delta_reserved_minor = neg_ℤ res.amount_minor;
      }))
    else pure tt

-- `releaseReservation`
unfoldable pub release_reservation : ℕ → Exec LedgerDb (Unit {0})
release_reservation id =
    transaction (do found ← gets (λ s. find id s.wallet_reservations); release_row id found)

-- The body of `applyReservation`, at the row that the SELECT finds.
unfoldable pub apply_row : ℕ → Option WalletReservation → Exec LedgerDb (Unit {0})
apply_row id none = pure tt
apply_row id (some res) =
    if is_held res.status
    then (do
      update_wallet res.wallet_id any_wallet (take_out res.amount_minor)
      modify (λ s. record s { wallet_reservations = update id set_applied s.wallet_reservations })
      append_wallet_ledger_entry (record {
        tenant_id = res.tenant_id;
        wallet_id = res.wallet_id;
        entry_type = apply;
        ref_type = payment;
        ref_id = res.payment_id;
        amount_minor = res.amount_minor;
        delta_available_minor = pos 0;
        delta_reserved_minor = neg_ℤ res.amount_minor;
      }))
    else pure tt

-- `applyReservation`
unfoldable pub apply_reservation : ℕ → Exec LedgerDb (Unit {0})
apply_reservation id =
    transaction (do found ← gets (λ s. find id s.wallet_reservations); apply_row id found)

abbrev pub deposit : ℤ → Wallet → Wallet
deposit a w = record w { available_minor = w.available_minor +ℤ a }
