-- ===== src/Payments/Bulk/Status.antt =====
-- packages/payments-core/src/bulk.ts: the outcome of a row, and the status of a batch.
use z_float_2_main.Prelude.{ℕ, Bool, true, false, ◌&&◌, length, keep, ltb, ◌==◌, if◌then◌else◌}
use z_float_2_main.Exec.{Exec, gets, modify, ◌>>=◌}
use z_float_2_main.Table.{Table, update}
use z_float_2_main.Payments.Bulk.{
  RowStatus, valid, error, pending, success, BatchStatus, processing, completed, partially_failed,
  PaymentBatchRow, BatchDb, set_batch,
}

abbrev pub is_failed : RowStatus → Bool
is_failed RowStatus.failed = true
is_failed error = true
is_failed _ = false

abbrev pub is_succeeded : RowStatus → Bool
is_succeeded success = true
is_succeeded _ = false

abbrev pub is_waiting : RowStatus → Bool
is_waiting pending = true
is_waiting valid = true
is_waiting _ = false

-- How many rows of the batch have such a status.
unfoldable pub count_rows : (RowStatus → Bool) → ℕ → Table PaymentBatchRow → ℕ
count_rows p batch rows = length (keep (λ r. r.1.batch_id == batch && p r.1.status) rows)

unfoldable pub status_of_counts : (succeeded_rows failed_rows waiting_rows : ℕ) → BatchStatus
status_of_counts s f p =
    if p == 0
    then (if f == 0 then completed else if ltb 0 s then partially_failed else BatchStatus.failed)
    else processing

-- `refreshBatchStatus`
unfoldable pub refresh_batch_status : ℕ → Exec BatchDb (Unit {0})
refresh_batch_status batch = do
  rows ← gets (λ s. s.payment_batch_rows)
  set_batch batch (λ b. record b {
    status =
        status_of_counts (count_rows is_succeeded batch rows) (count_rows is_failed batch rows)
          (count_rows is_waiting batch rows);
  })

unfoldable pub set_row : ℕ → (PaymentBatchRow → PaymentBatchRow) → Exec BatchDb (Unit {0})
set_row id f = modify (λ s. record s { payment_batch_rows = update id f s.payment_batch_rows })

-- `markBatchRowOutcome`
unfoldable pub mark_batch_row_outcome : ℕ → RowStatus → Exec BatchDb (Unit {0})
mark_batch_row_outcome id status = set_row id (λ r. record r { status = status })
