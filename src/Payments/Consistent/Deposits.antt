-- ===== src/Payments/Consistent/Deposits.antt =====
-- The invariant of the database under `createPayment` and `fundWallet` of
-- packages/payments-core/src/payments.ts.
use z_float_2_main.Prelude.{ℕ, refl, Option, none, some, List, arith}
use z_float_2_main.Prelude.Int.{ℤ}
use Prim.Native.String.{String}
use z_float_2_main.Ledger.Journal.{post_funding_journal}
use z_float_2_main.Exec.{Exec, pure, modify, ◌>>◌}
use z_float_2_main.Exec.Keeps.{
  Keeps, Keeps-modify, Keeps-bind, Keeps-then, Keeps-gets, Keeps-guard, Keeps-pure,
  Keeps-transaction, keeps_rules,
}
use z_float_2_main.Exec.Post.{
  Post, Post-bind, Post-gets, Post-or_raise, Post-of_Keeps, Post-zoom, Post-imp, transaction_ends,
}
use z_float_2_main.Ledger.Moves.Endings.{deposit-Outcome}
use z_float_2_main.Ledger.Healthy.{IsHealthy-IsPostable, Outcome-IsHealthy}
use z_float_2_main.Ledger.Postings.{post_funding_journal-Keeps}
use z_float_2_main.Payments.Tables.{CreatedPayment, IdempotencyRecord, FundingEvent, funded}
use z_float_2_main.Payments.Store.{Store, in_ledger, in_payments, enqueue_outbox}
use z_float_2_main.Payments.Fees.{FeeResult, FeeContext, compute_fee, record_fee_calculation}
use z_float_2_main.Payments.Commands.{
  CreatePaymentInput, set_records, run_once, with_idempotency, load_wallet, create_command,
  create_payment,
}
use z_float_2_main.Payments.Funding.{
  FundWalletInput, insert_funding_event, credit_wallet, funding_input, fund_wallet,
}
use z_float_2_main.Payments.Trace.{IsTraced, add_payment-IsTraced}
use z_float_2_main.Payments.Consistent.{
  IsConsistent, in_payments-Keeps, in_ledger-Keeps, enqueue_outbox-Keeps,
}

compute_fee-IsTraced :
    (now : ℕ) (amount : ℤ) (ctx : FeeContext) → Keeps IsTraced (compute_fee now amount ctx)
unfolding compute_fee
compute_fee-IsTraced now amount ctx = search keeps_rules

record_fee_calculation-IsTraced :
    (tenant payment : ℕ) (amount : ℤ) (fee : FeeResult)
    → Keeps IsTraced (record_fee_calculation tenant payment amount fee)
unfolding record_fee_calculation
record_fee_calculation-IsTraced tenant payment amount fee =
    Keeps-modify _ λ s h. record { trail = h.trail; current = h.current; recorded = h.recorded }

insert_funding_event-IsTraced : (e : FundingEvent) → Keeps IsTraced (insert_funding_event e)
unfolding insert_funding_event
insert_funding_event-IsTraced e = Keeps-bind _ _ (Keeps-gets _) λ id.
    Keeps-then _ _
      (Keeps-modify _ λ s h. record {
        trail = h.trail;
        current = h.current;
        recorded = λ i to there. omega (arith, h.recorded i to there);
      })
      (Keeps-pure _)

module _ (opening : ℕ → ℤ) where
  set_records-Keeps :
      (f : List IdempotencyRecord → List IdempotencyRecord)
      → Keeps (IsConsistent opening) (modify (set_records f))
  set_records-Keeps f = Keeps-modify (set_records f) λ s h. record {
    traced = record {
      trail = h.traced.trail;
      current = h.traced.current;
      recorded = h.traced.recorded;
    };
    healthy = h.healthy;
    four_eyes = h.four_eyes;
  }

  run_once-Keeps :
      (tenant : ℕ) (key : String) (run : Exec Store CreatedPayment) (prior : Option CreatedPayment)
      → Keeps (IsConsistent opening) run
      → Keeps (IsConsistent opening) (run_once tenant key run prior)
  unfolding run_once
  run_once-Keeps tenant key run (some r) k = Keeps-pure _
  run_once-Keeps tenant key run none k =
      Keeps-then _ _ (set_records-Keeps _)
        (Keeps-bind _ _ k λ r. Keeps-then _ _ (set_records-Keeps _) (Keeps-pure _))

  create_command-Keeps :
      (now : ℕ) (number : String) (i : CreatePaymentInput)
      → Keeps (IsConsistent opening) (create_command now number i)
  unfolding create_command load_wallet
  create_command-Keeps now number i = Keeps-then _ _ (search keeps_rules) (
      Keeps-bind _ _ (in_payments-Keeps opening _ (compute_fee-IsTraced _ _ _)) λ fee.
        Keeps-bind _ _ (Keeps-gets _) λ clash. Keeps-guard _ _ _ (
          Keeps-bind _ _ (Keeps-gets _) λ id.
            Keeps-then _ _ (in_payments-Keeps opening _ (add_payment-IsTraced _ refl)) (
              Keeps-then _ _ (in_payments-Keeps opening _ (record_fee_calculation-IsTraced _ _ _ _))
                (Keeps-pure _))))

  -- Creating a payment, anew or as a replay, keeps the database consistent.
  pub create_payment-Keeps :
      (now : ℕ) (number : String) (i : CreatePaymentInput)
      → Keeps (IsConsistent opening) (create_payment now number i)
  unfolding create_payment with_idempotency
  create_payment-Keeps now number i = Keeps-guard _ _ _ (
      Keeps-transaction _ (
        Keeps-bind _ _ (Keeps-gets _)
          λ prior. run_once-Keeps _ _ _ prior (create_command-Keeps now number i)))

  credit_wallet-Post :
      (i : FundWalletInput) (event : ℕ) (s : Store)
      → IsConsistent opening s
      → Post (λ _ t. IsConsistent opening t) (in_ledger (credit_wallet i event)) s
  unfolding in_ledger credit_wallet
  credit_wallet-Post i event s h = Post-zoom _ _ _ s (
      Post-imp _ _ (deposit-Outcome (funding_input i event) s.ledger) λ _ t o. record {
        traced = h.traced;
        healthy = Outcome-IsHealthy opening o h.healthy;
        four_eyes = h.four_eyes;
      })

  -- What `fund_wallet` does once the wallet has its credit.
  tail :
      (i : FundWalletInput) (event : ℕ)
      → Keeps (IsConsistent opening) (
          in_ledger (post_funding_journal i.tenant_id i.wallet_id i.amount_minor i.actor_id)
          >> (in_payments (enqueue_outbox funded i.wallet_id i.tenant_id) >> pure event))
  tail i event =
      Keeps-then _ _
        (in_ledger-Keeps opening _
          (post_funding_journal-Keeps (IsHealthy-IsPostable opening) _ _ _ _))
        (Keeps-then _ _ (enqueue_outbox-Keeps opening _ _ _) (Keeps-pure _))

  -- Funding a wallet keeps the database consistent.
  pub fund_wallet-Keeps : (i : FundWalletInput) → Keeps (IsConsistent opening) (fund_wallet i)
  unfolding fund_wallet
  fund_wallet-Keeps i = record {
    at = λ s h. transaction_ends (IsConsistent opening) _ s h (
        Post-bind _ _ s (
          Post-gets _ s (
            Post-bind _ _ s (
              Post-or_raise _ _ s λ w there. Post-bind _ _ s (
                Post-imp _ s
                  (Post-of_Keeps (IsConsistent opening) _ s
                    (in_payments-Keeps opening _ (insert_funding_event-IsTraced _)) h)
                  λ event t k. Post-bind _ _ t (
                    Post-imp _ t (credit_wallet-Post i event t k)
                      λ _ u l. Post-of_Keeps (IsConsistent opening) _ u (tail i event) l))))));
  }
