-- ===== src/Payments/Tests.antt =====
-- Runs of the payment commands on a small database.
pub mod Runs
use z_float_2_main.Prelude.{
  ℕ, ◌≡◌, ◌≤◌, refl, none, some, Option, List, [], ◌∷◌, true, false, Bool, ◌++◌,
}
use z_float_2_main.Prelude.Int.{ℤ, pos, negsuc, ◌+ℤ◌, ◌-ℤ◌, ◌*ℤ◌, div_ℤ}
use Prim.Native.String.{String}
use z_float_2_main.Exec.{
  ok, err, pure, raise, gets, transaction, attempt, modify, raise_if, or_raise, ◌>>=◌, zoom, Result,
}
use z_float_2_main.Table.{find, find_where, update}
use z_float_2_main.Ledger.Tests.{start, opening, start-IsHealthy}
use z_float_2_main.Approvals.Tests.{empty, empty-HasFourEyes}
use z_float_2_main.Approvals.Policy.{
  ApprovalRule, needs_approval, parallel, evaluate_policy, first_match, rule_matches, steps_of,
}
use z_float_2_main.Payments.State.{
  PaymentState, draft, validating, queued, failed, can_transition, transitions,
}
use z_float_2_main.Payments.Tables.{
  PaymentDb, Payment, FeeRule, CreatedPayment, ProviderStatus, success,
}
use z_float_2_main.Payments.Fees.{
  percent_floor, compute_fee, fee_rule_applies, record_fee_calculation,
}
use z_float_2_main.Payments.Store.{
  Store, in_payments, in_ledger, in_approvals, transition_payment, TransitionInput,
}
use z_float_2_main.Payments.Commands.{
  CreatePaymentInput, create_payment, create_command, with_idempotency, run_once, load_wallet,
}
use z_float_2_main.Payments.Commands.Replay.{create_payment_replays}
use z_float_2_main.Payments.Submit.{
  PaymentInput, submit_payment, cancel_payment, route, rules_for, context_of, flag_hit,
}
use z_float_2_main.Payments.Execute.{
  ProviderPaymentResult, execute_payment, apply_provider_success, apply_provider_failure,
}
use z_float_2_main.Payments.Reversal.{request_reversal}
use z_float_2_main.Payments.Funding.{FundWalletInput, fund_wallet}
use z_float_2_main.Payments.Trace.{IsTraced, IsStep, latest}
use z_float_2_main.Payments.Once.{status_of}
use z_float_2_main.Payments.Once.Outcomes.{
  execute_payment_once, apply_provider_success_once, apply_provider_failure_once,
}
use z_float_2_main.Payments.Gate.{rules_for-needs_approval}
use z_float_2_main.Payments.Consistent.{IsConsistent}
use z_float_2_main.Payments.Reachable.{
  Step, Steps, done, then, create, submit, execute, Steps-IsConsistent,
}
use z_float_2_main.Payments.Reachable.Claims.{transition_payment-IsTraced, cancel_payment_ledger}

-- 1 shilling and 2 %, from 2 to 10 shillings.
abbrev fee_rule : FeeRule
fee_rule = record {
  tenant_id = none;
  product = "single_payment";
  channel = "mpesa";
  provider = "local-sandbox";
  is_active = true;
  effective_from = none;
  effective_to = none;
  flat_fee_minor = pos 100;
  percent_bps = pos 200;
  min_fee_minor = pos 200;
  max_fee_minor = pos 1000;
}

abbrev pub genesis : Store
genesis = record {
  payment = record {
    next_id = 20;
    payments = [];
    payment_status_history = [];
    outbox_events = [];
    fee_rules = (19, fee_rule) ∷ [];
    fee_calculations = [];
    idempotency_records = [];
    funding_events = [];
    beneficiaries = [];
    payment_attempts = [];
    reversals = [];
  };
  ledger = start;
  approval = empty;
}

pub genesis-IsConsistent : IsConsistent opening genesis
unfolding find latest
genesis-IsConsistent = record {
  traced = record { trail = tt; current = λ id p e. cc; recorded = λ id to e. cc };
  healthy = start-IsHealthy;
  four_eyes = empty-HasFourEyes;
}

abbrev pub rent : CreatePaymentInput
rent = record {
  tenant_id = 7;
  actor_id = 5;
  amount_minor = pos 3000;
  channel = "mpesa";
  product = none;
  source_wallet_id = 1;
  branch_id = none;
  department_id = none;
  recipient_name = "Asha";
  idempotency_key = "rent-1";
  provider_code = none;
}

abbrev pub created : Store
created = (create_payment 50 "PAY-1" rent genesis).1

abbrev pub input : PaymentInput
input = record { tenant_id = 7; payment_id = 20; actor_id = 5 }

abbrev pub nobody : ℕ → String → Bool
nobody tenant name = false

abbrev pub everybody : ℕ → String → Bool
everybody tenant name = true

abbrev pub submitted : Store
submitted = (submit_payment nobody [] input created).1

abbrev pub accepts : Payment → Option ProviderPaymentResult
accepts p = some (record { status = success; provider_reference = some "MPESA-9" })

abbrev pub times_out : Payment → Option ProviderPaymentResult
times_out p = none

abbrev pub path : Steps genesis submitted
path = then (then done (create 50 "PAY-1" rent)) (submit nobody [] input)

Steps-IsConsistent_example : IsConsistent opening submitted
Steps-IsConsistent_example = Steps-IsConsistent opening path genesis-IsConsistent

pub created-IsConsistent : IsConsistent opening created
created-IsConsistent =
    Steps-IsConsistent opening (then done (create 50 "PAY-1" rent)) genesis-IsConsistent

pub submitted-IsConsistent : IsConsistent opening submitted
submitted-IsConsistent = Steps-IsConsistent opening path genesis-IsConsistent

abbrev paid : Store
paid = (execute_payment accepts 7 20 1 submitted).1

paid-IsConsistent : IsConsistent opening paid
paid-IsConsistent =
    Steps-IsConsistent opening (then path (execute accepts 7 20 1)) genesis-IsConsistent

abbrev reverses : String → ℤ → Option ProviderStatus
reverses reference amount = some success

abbrev top_up : FundWalletInput
top_up = record { tenant_id = 7; wallet_id = 1; amount_minor = pos 900; actor_id = some 5 }

cancel_payment_ledger_example : (cancel_payment input submitted).1.ledger ≡ submitted.ledger
cancel_payment_ledger_example = cancel_payment_ledger input submitted
