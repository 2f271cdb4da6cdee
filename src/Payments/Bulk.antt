-- ===== src/Payments/Bulk.antt =====
-- packages/payments-core/src/bulk.ts: checking the rows of a batch.
pub mod Laws
pub mod Status
mod Tests
use z_float_2_main.Prelude.{
  ℕ, ◌+◌, Bool, true, false, not, ◌&&◌, ◌||◌, Option, none, some, List, [], ◌∷◌, length, any, keep,
  leb, ltb, ◌==◌, if◌then◌else◌,
}
use z_float_2_main.Prelude.Int.{ℤ, pos, ◌+ℤ◌, ltb_ℤ, leb_ℤ, eqb_ℤ}
use z_float_2_main.Text.{Text, trim}
use z_float_2_main.Phone.{normalize_kenyan_phone}
use z_float_2_main.Exec.{
  Exec, pure, gets, modify, raise_if, transaction, zoom, ◌>>=◌, ◌>>◌, empty_batch, too_large,
  constraint,
}
use z_float_2_main.Table.{Table, update}
use z_float_2_main.Payments.Tables.{PaymentDb, batch_validated}
use z_float_2_main.Payments.Store.{enqueue_outbox}

pub data BatchStatus : Type 0 where
  uploaded scanned parsed validated in_review submitted approved processing : BatchStatus
  completed partially_failed failed cancelled : BatchStatus

pub data RowStatus : Type 0 where
  valid error pending success failed skipped : RowStatus

pub record PaymentBatch : Type 0 where
  pub tenant_id : ℕ
  pub total_amount_minor : ℤ
  pub row_count : ℕ
  pub valid_row_count : ℕ
  pub error_row_count : ℕ
  pub status : BatchStatus
  pub created_by_id : ℕ

pub record PaymentBatchRow : Type 0 where
  pub batch_id : ℕ
  pub row_number : ℕ
  pub recipient_name : Text
  pub phone : Text
  pub amount_minor : ℤ
  pub status : RowStatus

pub record BatchDb : Type 0 where
  pub next_id : ℕ
  pub payments : PaymentDb
  pub payment_batches : Table PaymentBatch
  pub payment_batch_rows : Table PaymentBatchRow

pub record ParsedBulkRow : Type 0 where
  pub row_number : ℕ
  pub recipient_name : Text
  pub phone : Text
  pub amount_minor : ℤ

pub record CreateBatchInput : Type 0 where
  pub tenant_id : ℕ
  pub actor_id : ℕ
  pub rows : List ParsedBulkRow

pub record ValidatedBatch : Type 0 where
  pub batch_id : ℕ
  pub total_amount_minor : ℤ
  pub valid_row_count : ℕ
  pub error_row_count : ℕ

-- What the loop carries: the sums, and the rows seen.
pub record Tally : Type 0 where
  pub total : ℤ
  pub valid_rows : ℕ
  pub error_rows : ℕ
  pub seen : List (Text × ℤ)

abbrev pub no_rows : Tally
no_rows = record { total = pos 0; valid_rows = 0; error_rows = 0; seen = [] }

unfoldable pub eqb_text : Text → Text → Bool
eqb_text [] [] = true
eqb_text [] (d ∷ t) = false
eqb_text (c ∷ s) [] = false
eqb_text (c ∷ s) (d ∷ t) = let rest = eqb_text s t in c == d && rest

-- `seen.has(...)`
abbrev pub was_seen : Text → ℤ → List (Text × ℤ) → Bool
was_seen phone amount seen = any (λ k. eqb_text k.0 phone && eqb_ℤ k.1 amount) seen

abbrev pub row_limit : ℤ
row_limit = pos 500000000

-- A row with a good telephone number that has an error all the same.
abbrev pub has_error : List (Text × ℤ) → Text → ParsedBulkRow → Bool
has_error seen phone row =
    leb_ℤ row.amount_minor (pos 0)
    || ltb_ℤ row_limit row.amount_minor
    || ltb (length (trim row.recipient_name)) 2
    || was_seen phone row.amount_minor seen

-- The telephone number of a row without an error.
abbrev pub checked_phone : List (Text × ℤ) → ParsedBulkRow → Option Text → Option Text
checked_phone seen row none = none
checked_phone seen row (some phone) = if has_error seen phone row then none else some phone

abbrev pub row_of : ℕ → ParsedBulkRow → Text → RowStatus → PaymentBatchRow
row_of batch row phone status = record {
  batch_id = batch;
  row_number = row.row_number;
  recipient_name = row.recipient_name;
  phone = phone;
  amount_minor = row.amount_minor;
  status = status;
}

-- How many characters PostgreSQL counts: the second half of a pair is not one.
abbrev pub characters : Text → ℕ
characters s = length (keep (λ c. not (leb 56320 c && leb c 57343)) s)

-- The columns hold 200 and 20 characters, and a batch has one row of each number.
abbrev pub fits : PaymentBatchRow → Table PaymentBatchRow → Bool
fits r rows =
    ltb (characters r.recipient_name) 201
    && ltb (characters r.phone) 21
    && not (any (λ o. o.1.batch_id == r.batch_id && o.1.row_number == r.row_number) rows)

abbrev pub add_row : PaymentBatchRow → BatchDb → BatchDb
add_row r s = record s {
  next_id = s.next_id + 1;
  payment_batch_rows = (s.next_id, r) ∷ s.payment_batch_rows;
}

-- INSERT INTO payment_batch_rows
unfoldable pub insert_row : PaymentBatchRow → Exec BatchDb (Unit {0})
insert_row r = do
  good ← gets (λ s. fits r s.payment_batch_rows)
  raise_if (not good) constraint
  modify (add_row r)

abbrev pub tally : ParsedBulkRow → Option Text → Tally → Tally
tally row none t = record t { error_rows = t.error_rows + 1 }
tally row (some phone) t = record {
  total = t.total +ℤ row.amount_minor;
  valid_rows = t.valid_rows + 1;
  error_rows = t.error_rows;
  seen = (phone, row.amount_minor) ∷ t.seen;
}

abbrev pub checked_row : ℕ → ParsedBulkRow → Option Text → PaymentBatchRow
checked_row batch row none = row_of batch row row.phone error
checked_row batch row (some phone) = row_of batch row phone valid

-- The loop of `createBatch`.
unfoldable pub add_rows : ℕ → List ParsedBulkRow → Tally → Exec BatchDb Tally
add_rows batch [] t = pure t
add_rows batch (row ∷ rows) t = do
  insert_row (checked_row batch row (checked_phone t.seen row (normalize_kenyan_phone row.phone)))
  add_rows batch rows (tally row (checked_phone t.seen row (normalize_kenyan_phone row.phone)) t)

abbrev pub add_batch : CreateBatchInput → BatchDb → BatchDb
add_batch i s = record s {
  next_id = s.next_id + 1;
  payment_batches =
      (
        s.next_id,
        record {
          tenant_id = i.tenant_id;
          total_amount_minor = pos 0;
          row_count = length i.rows;
          valid_row_count = 0;
          error_row_count = 0;
          status = validated;
          created_by_id = i.actor_id;
        },
      )
      ∷ s.payment_batches;
}

abbrev pub set_totals : Tally → PaymentBatch → PaymentBatch
set_totals t b = record b {
  total_amount_minor = t.total;
  valid_row_count = t.valid_rows;
  error_row_count = t.error_rows;
}

unfoldable pub set_batch : ℕ → (PaymentBatch → PaymentBatch) → Exec BatchDb (Unit {0})
set_batch id f = modify (λ s. record s { payment_batches = update id f s.payment_batches })

unfoldable pub in_outbox : {A : Type 0} → Exec PaymentDb A → Exec BatchDb A
in_outbox = zoom (λ s. s.payments) (λ s t. record s { payments = t })

abbrev pub validated_batch : ℕ → Tally → ValidatedBatch
validated_batch id t = record {
  batch_id = id;
  total_amount_minor = t.total;
  valid_row_count = t.valid_rows;
  error_row_count = t.error_rows;
}

-- What follows the insert of the batch.
unfoldable pub fill_batch : CreateBatchInput → ℕ → Exec BatchDb ValidatedBatch
fill_batch i id = do
  t ← add_rows id i.rows no_rows
  set_batch id (set_totals t)
  in_outbox (enqueue_outbox batch_validated id i.tenant_id)
  pure (validated_batch id t)

-- `createBatch`
unfoldable pub create_batch : CreateBatchInput → Exec BatchDb ValidatedBatch
create_batch i = do
  raise_if (length i.rows == 0) empty_batch
  raise_if (ltb 50000 (length i.rows)) too_large
  transaction (do id ← gets (λ s. s.next_id); modify (add_batch i); fill_batch i id)
