-- ===== src/Payments/Tests/Runs.antt =====
-- Runs of the payment commands that return, and what the theorems say of them.
use z_float_2_main.Prelude.{◌≡◌, refl, none, some, [], true, false}
use z_float_2_main.Prelude.Int.{pos, ◌+ℤ◌, ◌-ℤ◌, ◌*ℤ◌, div_ℤ}
use z_float_2_main.Exec.{
  ok, pure, raise, gets, transaction, attempt, modify, raise_if, or_raise, ◌>>=◌, zoom,
}
use z_float_2_main.Table.{find, find_where, update}
use z_float_2_main.Ledger.Wallet.{
  update_wallet, write_wallet, is_non_negative, deltas_fit, entry_is_valid,
  append_wallet_ledger_entry,
}
use z_float_2_main.Ledger.Reservation.{
  insert_reservation, after_update, attempt_reserve, finish_reserve, reserve_funds, release_row,
  release_reservation, apply_row, apply_reservation,
}
use z_float_2_main.Ledger.Journal.{
  reduce, get_system_account, get_wallet_ledger_account, existing_or_create, created_or,
  create_wallet_account, funding_account, fee_lines, post_payment_success_journal, post_journal,
  insert_entries,
}
use z_float_2_main.Approvals.Policy.{
  needs_approval, evaluate_policy, first_match, rule_matches, steps_of,
}
use z_float_2_main.Payments.State.{draft, validating, success, failed, can_transition, transitions}
use z_float_2_main.Payments.Tables.{ProviderStatus, CreatedPayment, Payment}
use z_float_2_main.Payments.Fees.{
  rule_fee, percent_floor, compute_fee, fee_rule_applies, record_fee_calculation,
}
use z_float_2_main.Payments.Store.{
  Store, in_payments, in_ledger, in_approvals, transition_payment, TransitionInput, enqueue_outbox,
  set_payment,
}
use z_float_2_main.Payments.Commands.{
  create_payment, create_command, with_idempotency, run_once, load_wallet,
}
use z_float_2_main.Payments.Commands.Replay.{create_payment_replays}
use z_float_2_main.Payments.Submit.{
  assert_payee_approved, load_payment, after_reserve, queue_payment, ask_approval, queue_now,
  is_hit, submit_payment, route, rules_for, context_of, flag_hit,
}
use z_float_2_main.Payments.Execute.{
  record_attempt, reservation_for, apply_if_held, release_if_held, settle, apply_provider_success,
  fail, apply_provider_failure, follow, take_answer, run_payment, execute_payment,
}
use z_float_2_main.Payments.Trace.{IsTraced}
use z_float_2_main.Payments.Resubmit.{submit_payment_refused}
use z_float_2_main.Payments.Once.{status_of}
use z_float_2_main.Payments.Once.Outcomes.{
  execute_payment_once, apply_provider_success_once, apply_provider_failure_once,
}
use z_float_2_main.Payments.Gate.{rules_for-needs_approval}
use z_float_2_main.Payments.Reachable.Claims.{transition_payment-IsTraced}
use z_float_2_main.Payments.Tests.{
  genesis, rent, created, input, nobody, submitted, accepts, times_out, created-IsConsistent,
}

unfoldable pub defs : Unit {0}
unfolding pure raise gets transaction attempt modify raise_if or_raise ◌>>=◌ zoom find find_where
    update update_wallet write_wallet is_non_negative deltas_fit entry_is_valid
    append_wallet_ledger_entry insert_reservation after_update attempt_reserve finish_reserve
    reserve_funds release_row release_reservation apply_row apply_reservation reduce
    get_system_account get_wallet_ledger_account existing_or_create created_or create_wallet_account
    funding_account fee_lines post_payment_success_journal post_journal insert_entries
    evaluate_policy first_match rule_matches steps_of can_transition transitions rule_fee
    percent_floor compute_fee fee_rule_applies record_fee_calculation in_payments in_ledger
    in_approvals transition_payment enqueue_outbox set_payment create_payment create_command
    with_idempotency run_once load_wallet assert_payee_approved load_payment after_reserve
    queue_payment ask_approval queue_now is_hit submit_payment route rules_for record_attempt
    reservation_for apply_if_held release_if_held settle apply_provider_success fail
    apply_provider_failure follow take_answer run_payment execute_payment ◌+ℤ◌ ◌-ℤ◌ ◌*ℤ◌ div_ℤ
    needs_approval
defs = tt

abbrev rent_paid : CreatedPayment
rent_paid = record {
  payment_id = 20;
  payment_number = "PAY-1";
  status = draft;
  amount_minor = pos 3000;
  fee_minor = pos 200;
  total_minor = pos 3200;
  approval_required = false;
}

rent-created : create_payment 50 "PAY-1" rent genesis ≡ (ok (false, rent_paid), created)
unfolding defs
rent-created = refl

create_payment_replays_example :
    create_payment 60 "PAY-2" rent created ≡ (ok (true, rent_paid), created)
create_payment_replays_example =
    create_payment_replays 50 60 "PAY-1" "PAY-2" rent rent genesis created false rent_paid
      rent-created refl refl refl

abbrev to_validating : TransitionInput
to_validating = record { payment_id = 20; to = validating; actor_id = some 5 }

abbrev moved : Store
moved = (in_payments (transition_payment to_validating none) created).1

moves : transition_payment to_validating none created.payment ≡ (ok tt, moved.payment)
unfolding defs
moves = refl

transition_payment-IsTraced_example :
    IsTraced moved.payment × (status_of 20 moved.payment ≡ some validating)
transition_payment-IsTraced_example =
    transition_payment-IsTraced to_validating none created.payment moved.payment
      created-IsConsistent.traced moves

abbrev executed : Store
executed = (execute_payment accepts 7 20 1 submitted).1

executes : execute_payment accepts 7 20 1 submitted ≡ (ok tt, executed)
unfolding defs
executes = refl

execute_payment_once_example : (execute_payment times_out 7 20 2 executed).1 ≡ executed
execute_payment_once_example =
    execute_payment_once accepts times_out 7 20 1 2 submitted executed executes

paid_once : status_of 20 executed.payment ≡ some success
unfolding defs status_of
paid_once = refl

abbrev waiting : Store
waiting = (execute_payment times_out 7 20 1 submitted).1

abbrev succeeded : Store
succeeded = (apply_provider_success 20 "MPESA-9" waiting).1

succeeds : apply_provider_success 20 "MPESA-9" waiting ≡ (ok tt, succeeded)
unfolding defs
succeeds = refl

apply_provider_success_once_example :
    apply_provider_success 20 "MPESA-10" succeeded ≡ (ok tt, succeeded)
apply_provider_success_once_example =
    apply_provider_success_once 20 "MPESA-9" "MPESA-10" waiting succeeded succeeds

abbrev rejected : Store
rejected = (apply_provider_failure 20 waiting).1

fails : apply_provider_failure 20 waiting ≡ (ok tt, rejected)
unfolding defs
fails = refl

apply_provider_failure_once_example : apply_provider_failure 20 rejected ≡ (ok tt, rejected)
apply_provider_failure_once_example = apply_provider_failure_once 20 waiting rejected fails

abbrev pub rent_row : Payment
rent_row = record {
  tenant_id = 7;
  payment_number = "PAY-1";
  product = "single_payment";
  channel = "mpesa";
  amount_minor = pos 3000;
  fee_minor = pos 200;
  total_minor = pos 3200;
  status = draft;
  source_wallet_id = some 1;
  beneficiary_id = none;
  beneficiary_name = "Asha";
  branch_id = none;
  department_id = none;
  idempotency_key = "rent-1";
  provider_reference = none;
  provider_status = none;
  risk_flags = [];
  approval_required = false;
  approved_by_id = none;
  created_by_id = 5;
  version = 1;
}

abbrev failed_row : Payment
failed_row = record rent_row {
  status = failed;
  version = 6;
  provider_status = some ProviderStatus.failed;
}

failed-is_stored : find 20 rejected.payment.payments ≡ some failed_row
unfolding defs
failed-is_stored = refl

submit_payment_refused_example : (submit_payment nobody [] input rejected).1 ≡ rejected
submit_payment_refused_example =
    submit_payment_refused nobody [] input rejected failed_row failed-is_stored refl

rules_for-needs_approval_example :
    needs_approval
      (rules_for [] (context_of rent_row (flag_hit true [])) true)
      (context_of rent_row (flag_hit true []))
    ≡ true
rules_for-needs_approval_example = rules_for-needs_approval [] rent_row
