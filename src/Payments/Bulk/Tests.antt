-- ===== src/Payments/Bulk/Tests.antt =====
-- A batch with a good row, the same row again, a row that pays nothing, and the status of batches.
use z_float_2_main.Prelude.{ℕ, ◌≡◌, refl, [], ◌∷◌}
use z_float_2_main.Prelude.Int.{ℤ, pos, ◌+ℤ◌}
use z_float_2_main.Text.{codes, trim, drop_spaces, is_space}
use z_float_2_main.Phone.{normalize_kenyan_phone}
use z_float_2_main.Exec.{ok, pure, gets, modify, raise_if, transaction, zoom, ◌>>=◌}
use z_float_2_main.Table.{update}
use z_float_2_main.Payments.Store.{enqueue_outbox}
use z_float_2_main.Payments.Tests.{genesis}
use z_float_2_main.Payments.Bulk.{
  processing, completed, partially_failed, BatchStatus, BatchDb, ParsedBulkRow, CreateBatchInput,
  ValidatedBatch, eqb_text, insert_row, add_rows, set_batch, in_outbox, fill_batch, create_batch,
}
use z_float_2_main.Payments.Bulk.Status.{status_of_counts}
use z_float_2_main.Payments.Bulk.Laws.{IsValidated, create_batch-IsValidated}

abbrev empty : BatchDb
empty = record {
  next_id = 60;
  payments = genesis.payment;
  payment_batches = [];
  payment_batch_rows = [];
}

abbrev parsed : ℕ → ℤ → ParsedBulkRow
parsed number amount = record {
  row_number = number;
  recipient_name = codes " Asha ";
  phone = codes "0712 345 678";
  amount_minor = amount;
}

abbrev upload : CreateBatchInput
upload = record {
  tenant_id = 7;
  actor_id = 3;
  rows = parsed 1 (pos 5000) ∷ parsed 2 (pos 5000) ∷ parsed 3 (pos 0) ∷ parsed 4 (pos 700) ∷ [];
}

abbrev made : BatchDb
made = (create_batch upload empty).1

abbrev outcome : ValidatedBatch
outcome = record {
  batch_id = 60;
  total_amount_minor = pos 5700;
  valid_row_count = 2;
  error_row_count = 2;
}

makes : create_batch upload empty ≡ (ok outcome, made)
unfolding create_batch fill_batch add_rows insert_row set_batch in_outbox zoom enqueue_outbox
    normalize_kenyan_phone trim drop_spaces is_space eqb_text pure gets modify raise_if transaction
    ◌>>=◌ update ◌+ℤ◌
makes = refl

create_batch-IsValidated_example : IsValidated upload outcome empty made
create_batch-IsValidated_example = create_batch-IsValidated upload empty made outcome makes

all_paid : status_of_counts 2 0 0 ≡ completed
unfolding status_of_counts
all_paid = refl

some_waiting : status_of_counts 2 1 1 ≡ processing
unfolding status_of_counts
some_waiting = refl

some_failed : status_of_counts 2 1 0 ≡ partially_failed
unfolding status_of_counts
some_failed = refl

none_paid : status_of_counts 0 3 0 ≡ BatchStatus.failed
unfolding status_of_counts
none_paid = refl
