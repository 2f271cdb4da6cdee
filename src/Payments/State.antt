-- ===== src/Payments/State.antt =====
-- packages/payments-core/src/state.ts: the states of a payment and the legal moves between them.
use z_float_2_main.Prelude.{ℕ, Bool, ◌||◌, List, [], ◌∷◌, ◌==◌, any}

pub data PaymentState : Type 0 where
  draft validating pending_approval approved rejected queued processing : PaymentState
  provider_pending success failed reversed cancelled : PaymentState

-- The place in PAYMENT_STATES, by which states are compared.
abbrev pub index : PaymentState → ℕ
index draft = 0
index validating = 1
index pending_approval = 2
index approved = 3
index rejected = 4
index queued = 5
index processing = 6
index provider_pending = 7
index success = 8
index failed = 9
index reversed = 10
index cancelled = 11

abbrev pub same_state : PaymentState → PaymentState → Bool
same_state a b = index a == index b

-- `TRANSITIONS`
unfoldable pub transitions : PaymentState → List PaymentState
transitions draft = validating ∷ cancelled ∷ []
transitions validating = pending_approval ∷ queued ∷ failed ∷ cancelled ∷ []
transitions pending_approval = approved ∷ rejected ∷ cancelled ∷ []
transitions approved = queued ∷ failed ∷ cancelled ∷ []
transitions rejected = []
transitions queued = processing ∷ cancelled ∷ failed ∷ []
transitions processing = provider_pending ∷ success ∷ failed ∷ []
transitions provider_pending = success ∷ failed ∷ reversed ∷ []
transitions success = reversed ∷ []
transitions failed = queued ∷ cancelled ∷ []
transitions reversed = []
transitions cancelled = []

-- `canTransition`
unfoldable pub can_transition : PaymentState → PaymentState → Bool
unfolding transitions
can_transition from to = same_state from to || any (same_state to) (transitions from)
