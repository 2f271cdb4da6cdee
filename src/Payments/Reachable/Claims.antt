-- ===== src/Payments/Reachable/Claims.antt =====
-- The commands of packages/payments-core, one by one, at a database that is consistent.
use z_float_2_main.Prelude.{ℕ, ◌≡◌, refl, Option, some}
use mathlib.Core.Path.{subst}
use Prim.Native.String.{String}
use z_float_2_main.Exec.{ok}
use z_float_2_main.Exec.Post.{returned}
use z_float_2_main.Payments.Tables.{PaymentDb}
use z_float_2_main.Payments.Store.{Store, TransitionInput, transition_payment}
use z_float_2_main.Payments.Submit.{PaymentInput, cancel_payment}
use z_float_2_main.Payments.Gate.{cancel_payment-HasLedger}
use z_float_2_main.Payments.Once.{status_of, transition_payment-status_of}
use z_float_2_main.Payments.Trace.{IsTraced, transition_payment-Keeps}

-- When a transition returns, from tables where the history of every payment is legal, chained and
-- ends at its status, the tables are so again, and the payment is in the state that was asked for.
pub transition_payment-IsTraced :
    (i : TransitionInput) (expected : Option ℕ) (s : PaymentDb) (t : PaymentDb)
    → IsTraced s
    → transition_payment i expected s ≡ (ok tt, t)
    → IsTraced t × (status_of i.payment_id t ≡ some i.to)
transition_payment-IsTraced i expected s t h ran = (
  subst (λ r. IsTraced r.1) ran ((transition_payment-Keeps i expected).at s h),
  returned (transition_payment-status_of i expected s) ran,
)

-- Cancelling a payment, in whatever state it is, leaves the tables of the ledger as they are: a
-- reservation that is held for the payment stays held.
pub cancel_payment_ledger :
    (i : PaymentInput) (s : Store) → (cancel_payment i s).1.ledger ≡ s.ledger
cancel_payment_ledger i s = (cancel_payment-HasLedger s.ledger i).at s refl
