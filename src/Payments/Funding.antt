-- ===== src/Payments/Funding.antt =====
-- packages/payments-core/src/payments.ts, `fundWallet`: deposits to a wallet.
use z_float_2_main.Prelude.{ℕ, ◌+◌, Option, ◌∷◌}
use z_float_2_main.Prelude.Int.{ℤ}
use z_float_2_main.Exec.{
  Exec, pure, gets, transaction, modify, or_raise, ◌>>=◌, ◌>>◌, wallet_not_found,
}
use z_float_2_main.Table.{find}
use z_float_2_main.Ledger.Tables.{LedgerDb, funding}
use z_float_2_main.Ledger.Wallet.{FundingInput, any_wallet, update_wallet, record_wallet_funding}
use z_float_2_main.Ledger.Reservation.{deposit}
use z_float_2_main.Ledger.Journal.{post_funding_journal}
use z_float_2_main.Payments.Tables.{PaymentDb, FundingEvent, funded}
use z_float_2_main.Payments.Store.{Store, in_payments, in_ledger, enqueue_outbox}
use z_float_2_main.Payments.Commands.{in_tenant}

-- The amount is what `parseMinor` reads in the input.
pub record FundWalletInput : Type 0 where
  pub tenant_id : ℕ
  pub wallet_id : ℕ
  pub amount_minor : ℤ
  pub actor_id : Option ℕ

abbrev event_of : FundWalletInput → FundingEvent
event_of i = record {
  tenant_id = i.tenant_id;
  wallet_id = i.wallet_id;
  amount_minor = i.amount_minor;
}

-- INSERT INTO funding_events
unfoldable pub insert_funding_event : FundingEvent → Exec PaymentDb ℕ
insert_funding_event e = do
  id ← gets (λ s. s.next_id)
  modify (λ s. record s {
    next_id = s.next_id + 1;
    funding_events = (s.next_id, e) ∷ s.funding_events;
  })
  pure id

abbrev pub funding_input : FundWalletInput → ℕ → FundingInput
funding_input i event = record {
  tenant_id = i.tenant_id;
  wallet_id = i.wallet_id;
  ref_type = funding;
  ref_id = event;
  amount_minor = i.amount_minor;
}

-- The update of the balance, with its entry in the wallet's ledger.
unfoldable pub credit_wallet : FundWalletInput → ℕ → Exec LedgerDb (Unit {0})
credit_wallet i event = do
  update_wallet i.wallet_id any_wallet (deposit i.amount_minor)
  record_wallet_funding (funding_input i event)

-- `fundWallet`: the funding event.
unfoldable pub fund_wallet : FundWalletInput → Exec Store ℕ
fund_wallet i = transaction (do
  found ← gets (λ s. in_tenant i.tenant_id (find i.wallet_id s.ledger.wallets))
  or_raise wallet_not_found found
  event ← in_payments (insert_funding_event (event_of i))
  in_ledger (credit_wallet i event)
  in_ledger (post_funding_journal i.tenant_id i.wallet_id i.amount_minor i.actor_id)
  in_payments (enqueue_outbox funded i.wallet_id i.tenant_id)
  pure event)
