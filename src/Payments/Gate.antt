-- ===== src/Payments/Gate.antt =====
-- The gates of packages/payments-core/src/payments.ts: approvals, the watchlist and cancellation.
use z_float_2_main.Prelude.{
  ℕ, ◌≡◌, refl, Bool, true, false, not, ◌||◌, List, [], ◌∷◌, ◌++◌, any, Bool-cases, inl, inr,
}
use Prim.Native.String.{String}
use text.Mathlib.Text.{◌==◌ as str_eq}
use text.Mathlib.TextPositions.{eq_refl}
use z_float_2_main.Exec.{Exec}
use z_float_2_main.Exec.Keeps.{
  Keeps, Keeps-bind, Keeps-then, Keeps-pure, Keeps-zoom, Keeps-guard, Keeps-transaction,
  keeps_rules,
}
use z_float_2_main.Ledger.Tables.{LedgerDb}
use z_float_2_main.Approvals.Policy.{
  ApprovalRule, ApprovalContext, is_empty, includes, evaluate_policy, needs_approval, rule_matches,
  first_match, steps_of,
}
use z_float_2_main.Approvals.Service.{ApprovalDb}
use z_float_2_main.Payments.Tables.{PaymentDb, Payment}
use z_float_2_main.Payments.Store.{Store, in_payments, in_approvals}
use z_float_2_main.Payments.Submit.{
  PaymentInput, load_payment, route, ask_approval, rules_for, context_of, flag_hit, watchlist_flag,
  watchlist_rule, cancel_payment,
}

not-true : (b : Bool) → not b ≡ true → b ≡ false
not-true true e = cc
not-true false e = refl

module _ (ledger : LedgerDb) where
  abbrev HasLedger : Store → Type 0
  HasLedger s = s.ledger ≡ ledger

  in_payments-HasLedger : {A : Type 0} (m : Exec PaymentDb A) → Keeps HasLedger (in_payments m)
  unfolding in_payments
  in_payments-HasLedger m =
      Keeps-zoom {Q = λ _. Unit} _ _ m (λ s h. tt) (λ s t h k. h) (record { at = λ s h. tt })

  in_approvals-HasLedger : {A : Type 0} (m : Exec ApprovalDb A) → Keeps HasLedger (in_approvals m)
  unfolding in_approvals
  in_approvals-HasLedger m =
      Keeps-zoom {Q = λ _. Unit} _ _ m (λ s h. tt) (λ s t h k. h) (record { at = λ s h. tt })

  load_payment-HasLedger : (tenant id : ℕ) → Keeps HasLedger (load_payment tenant id)
  unfolding load_payment
  load_payment-HasLedger tenant id = search keeps_rules

  -- Cancelling a payment leaves the ledger's tables as they are, in whatever state the payment is:
  -- a reservation that is held for it stays held.
  pub cancel_payment-HasLedger : (i : PaymentInput) → Keeps HasLedger (cancel_payment i)
  unfolding cancel_payment
  cancel_payment-HasLedger i = Keeps-transaction _ (
      Keeps-bind _ _ (load_payment-HasLedger i.tenant_id i.payment_id) λ p. Keeps-guard _ _ _ (
        Keeps-then _ _ (in_payments-HasLedger _)
          (Keeps-then _ _ (in_payments-HasLedger _) (Keeps-pure _))))

  -- While the rules ask for approval of a payment, its submission takes it to the approvers and
  -- leaves the ledger's tables as they are: nothing is reserved for it.
  pub route-HasLedger :
      (i : PaymentInput) (rules : List ApprovalRule) (ctx : ApprovalContext)
      → needs_approval rules ctx ≡ true
      → Keeps HasLedger (route i rules ctx)
  unfolding route needs_approval ask_approval
  route-HasLedger i rules ctx needed = rw (not-true (is_empty (evaluate_policy rules ctx)) needed) (
      Keeps-bind _ _ (in_approvals-HasLedger _) λ id. Keeps-then _ _ (in_payments-HasLedger _) (
        Keeps-then _ _ (in_payments-HasLedger _)
          (Keeps-then _ _ (in_payments-HasLedger _) (Keeps-pure _))))

or_true : (b : Bool) → (b || true) ≡ true
or_true true = refl
or_true false = refl

any-end : (flags : List String) (x : String) → any (λ y. str_eq y x) (flags ++ (x ∷ [])) ≡ true
any-end [] x = rw (eq_refl x) refl
any-end (y ∷ flags) x = rw (any-end flags x) (or_true (str_eq y x))

watchlist_rule-matches :
    (ctx : ApprovalContext)
    → includes ctx.risk_flags watchlist_flag ≡ true
    → is_empty (evaluate_policy (watchlist_rule ∷ []) ctx) ≡ false
unfolding evaluate_policy first_match rule_matches steps_of
watchlist_rule-matches ctx flagged = rw flagged refl

rules_for_cases :
    (rules : List ApprovalRule) (ctx : ApprovalContext)
    → includes ctx.risk_flags watchlist_flag ≡ true
    → needs_approval (rules_for rules ctx true) ctx ≡ true
unfolding rules_for needs_approval
rules_for_cases rules ctx flagged = elim (Bool-cases (is_empty (evaluate_policy rules ctx))) [
  | inl none_asks ↦ rw (none_asks, watchlist_rule-matches ctx flagged) refl
  | inr asks ↦ rw (asks, asks) refl
]

-- A payment whose recipient is on the watchlist is for the approvers, whatever the policy says.
pub rules_for-needs_approval :
    (rules : List ApprovalRule) (p : Payment)
    → needs_approval
        (rules_for rules (context_of p (flag_hit true p.risk_flags)) true)
        (context_of p (flag_hit true p.risk_flags))
      ≡ true
unfolding rules_for needs_approval
rules_for-needs_approval rules p =
    rules_for_cases rules (context_of p (flag_hit true p.risk_flags))
      (any-end p.risk_flags watchlist_flag)
