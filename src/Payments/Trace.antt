-- ===== src/Payments/Trace.antt =====
-- The history of payments under packages/payments-core/src/state.ts.
use z_float_2_main.Prelude.{
  ℕ, ◌<◌, ◌≡◌, refl, Bool, true, false, not, Option, none, some, List, [], ◌∷◌, sym, arith, ◌==◌,
  if◌then◌else◌, Option-cases, inl, inr,
}
use z_float_2_main.Exec.{modify, pure}
use z_float_2_main.Exec.Keeps.{Keeps, Keeps-modify, Keeps-then, Keeps-pure, Keeps-bind, keeps_rules}
use z_float_2_main.Exec.Ends.{Ends-gets, Ends-or_raise, Ends-guard, Ends-if, Ends-modify}
use z_float_2_main.Table.{find, find-update}
use z_float_2_main.Payments.State.{PaymentState, draft, same_state, can_transition}
use z_float_2_main.Payments.Tables.{PaymentDb, Payment, PaymentStatusHistory, EventType}
use z_float_2_main.Payments.Commands.{add_payment}
use z_float_2_main.Payments.Store.{
  TransitionInput, move_to, write_transition, transition_payment, enqueue_outbox, set_payment,
}

-- The status that the newest row of a payment's history is for.
unfoldable pub latest : ℕ → List PaymentStatusHistory → Option PaymentState
latest id [] = none
latest id (h ∷ rest) = if h.payment_id == id then some h.to_status else latest id rest

-- A payment starts as a draft, and moves along `TRANSITIONS`.
unfoldable pub IsStep : Option PaymentState → PaymentState → Type 0
IsStep none to = to ≡ draft
IsStep (some from) to = can_transition from to ≡ true

-- Each row goes on where the row before it, of the same payment, ended.
abbrev pub IsTrail : List PaymentStatusHistory → Type 0
IsTrail [] = Unit
IsTrail (h ∷ rest) =
    (h.from_status ≡ latest h.payment_id rest) × (IsStep h.from_status h.to_status × IsTrail rest)

pub record IsTraced (s : PaymentDb) : Type 0 where
  pub trail : IsTrail s.payment_status_history
  pub current :
      (id : ℕ) (p : Payment)
      → find id s.payments ≡ some p
      → latest id s.payment_status_history ≡ some p.status
  pub recorded :
      (id : ℕ) (to : PaymentState) → latest id s.payment_status_history ≡ some to → id < s.next_id

-- What reads neither the payments nor their history.
pub unrelated-IsTraced :
    (s t : PaymentDb)
    → t.payments ≡ s.payments
    → t.payment_status_history ≡ s.payment_status_history
    → ((id : ℕ) → id < s.next_id → id < t.next_id)
    → IsTraced s
    → IsTraced t
unrelated-IsTraced s t same_payments same_history grows h = record {
  trail = rw same_history h.trail;
  current = λ id p e. let now = h.current id p (cc) in cc;
  recorded = λ id to e. grows id (h.recorded id to (cc));
}

pub enqueue_outbox-IsTraced :
    (type : EventType) (aggregate tenant : ℕ)
    → Keeps IsTraced (enqueue_outbox type aggregate tenant)
unfolding enqueue_outbox
enqueue_outbox-IsTraced type aggregate tenant = Keeps-bind _ _ (search keeps_rules) λ id.
    Keeps-then _ _
      (Keeps-modify _ λ s h. record {
        trail = h.trail;
        current = h.current;
        recorded = λ i to e. omega (arith, h.recorded i to e);
      })
      (Keeps-pure _)

module _ (id : ℕ) (f : Payment → Payment) (same : (p : Payment) → (f p).status ≡ p.status) where
  pub set_payment-IsTraced : Keeps IsTraced (set_payment id f)
  unfolding set_payment
  set_payment-IsTraced = Keeps-modify _ λ s h. record {
    trail = h.trail;
    current = λ j p e. elim (Option-cases (find j s.payments)) [
      | inl missing ↦ ground (arith, find-update j id f s.payments)
      | inr (q, there) ↦ ground (arith, find-update j id f s.payments, h.current j q there, same q)
    ];
    recorded = h.recorded;
  }

write_transition-IsTraced :
    (i : TransitionInput) (p : Payment) (s : PaymentDb)
    → find i.payment_id s.payments ≡ some p
    → can_transition p.status i.to ≡ true
    → IsTraced s
    → IsTraced (write_transition i p s)
unfolding latest IsStep
write_transition-IsTraced i p s there legal h = record {
  trail = (sym (h.current i.payment_id p there), (legal, h.trail));
  current = λ j q e. elim (Option-cases (find j s.payments)) [
    | inl missing ↦ ground (arith, find-update j i.payment_id (move_to i.to p.version) s.payments)
    | inr (r, known) ↦
        ground (
          arith,
          find-update j i.payment_id (move_to i.to p.version) s.payments,
          h.current j r known,
        )
  ];
  recorded = λ j to e.
      ground
        (arith, h.recorded j to, h.recorded i.payment_id p.status (h.current i.payment_id p there));
}

not-false : (b : Bool) → not b ≡ false → b ≡ true
not-false true e = refl
not-false false e = cc

-- A transition keeps the histories of payments trails that end at their status.
pub transition_payment-Keeps :
    (i : TransitionInput) (expected : Option ℕ) → Keeps IsTraced (transition_payment i expected)
unfolding transition_payment
transition_payment-Keeps i expected = record {
  at = λ s h. Ends-gets IsTraced _ _ s (
      Ends-or_raise IsTraced _ _ _ s h λ p there. Ends-guard IsTraced _ _ _ s h λ _.
        Ends-guard IsTraced _ _ _ s h λ legal.
          Ends-if IsTraced (same_state p.status i.to) (pure tt) (modify (write_transition i p)) s
            (λ _. (Keeps-pure {P = IsTraced} tt).at s h)
            λ _. Ends-modify IsTraced (write_transition i p) s (
              write_transition-IsTraced i p s there (not-false (can_transition p.status i.to) legal)
                h));
}

-- No row is of a payment still to come.
unknown : (s : PaymentDb) → IsTraced s → latest s.next_id s.payment_status_history ≡ none
unknown s h = elim (Option-cases (latest s.next_id s.payment_status_history)) [
  | inl missing ↦ missing
  | inr (to, there) ↦ ground (arith, h.recorded s.next_id to there)
]

-- A new payment starts its own trail, with a draft.
pub add_payment-IsTraced :
    (p : Payment) → p.status ≡ draft → Keeps IsTraced (modify (add_payment p))
unfolding find latest IsStep
add_payment-IsTraced p new = Keeps-modify (add_payment p) λ s h. record {
  trail = (sym (unknown s h), (refl, h.trail));
  current = λ j q e. ground (arith, h.current j q);
  recorded = λ j to e. ground (arith, h.recorded j to);
}
