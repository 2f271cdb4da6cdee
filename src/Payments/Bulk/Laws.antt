-- ===== src/Payments/Bulk/Laws.antt =====
-- `createBatch` of packages/payments-core/src/bulk.ts: the sums of a batch and its rows.
use z_float_2_main.Prelude.{
  ℕ, suc, ◌+◌, ◌≡◌, refl, sym, ◌∙◌, ap, Bool, true, false, not, ◌&&◌, ◌||◌, Option, none, some,
  List, [], ◌∷◌, ◌++◌, length, ◌==◌, if◌then◌else◌, arith, ==_self,
}
use z_float_2_main.Prelude.Int.{ℤ, pos, ◌+ℤ◌, ltb_ℤ, leb_ℤ}
use z_float_2_main.Text.{Text}
use z_float_2_main.Phone.{normalize_kenyan_phone}
use z_float_2_main.Exec.{ok}
use z_float_2_main.Exec.Post.{
  Post-zoom, Post, Post-pure, Post-gets, Post-modify, Post-raise_if, Post-bind, Post-imp, Post-any,
  Post-transaction, returned,
}
use z_float_2_main.Table.{Table, find, update}
use z_float_2_main.Payments.Bulk.{
  RowStatus, PaymentBatch, validated, set_totals, valid, PaymentBatchRow, BatchDb, ParsedBulkRow,
  CreateBatchInput, ValidatedBatch, Tally, no_rows, was_seen, row_limit, checked_phone, checked_row,
  tally, insert_row, add_row, add_rows, add_batch, set_batch, in_outbox, fill_batch, create_batch,
}

abbrev is_valid : RowStatus → Bool
is_valid valid = true
is_valid _ = false

-- What the valid rows come to, how many there are of each kind, and who is paid what.
abbrev pub total_of : Table PaymentBatchRow → ℤ
total_of [] = pos 0
total_of ((_, r) ∷ rows) =
    if is_valid r.status then total_of rows +ℤ r.amount_minor else total_of rows

abbrev pub valid_in : Table PaymentBatchRow → ℕ
valid_in [] = 0
valid_in ((_, r) ∷ rows) = if is_valid r.status then valid_in rows + 1 else valid_in rows

abbrev pub errors_in : Table PaymentBatchRow → ℕ
errors_in [] = 0
errors_in ((_, r) ∷ rows) = if is_valid r.status then errors_in rows else errors_in rows + 1

abbrev pub paid_in : Table PaymentBatchRow → List (Text × ℤ)
paid_in [] = []
paid_in ((_, r) ∷ rows) =
    if is_valid r.status then (r.phone, r.amount_minor) ∷ paid_in rows else paid_in rows

-- A valid row pays a positive amount within the limit, and nobody is paid the same amount in two.
abbrev row_is_sound : PaymentBatchRow → Table PaymentBatchRow → Bool
row_is_sound r rows =
    not (is_valid r.status)
    || ltb_ℤ (pos 0) r.amount_minor
      && leb_ℤ r.amount_minor row_limit
      && not (was_seen r.phone r.amount_minor (paid_in rows))

abbrev pub are_sound : ℕ → Table PaymentBatchRow → Bool
are_sound batch [] = true
are_sound batch ((_, r) ∷ rows) =
    let rest = are_sound batch rows in r.batch_id == batch && row_is_sound r rows && rest

-- The rows were inserted on top of the others, and the tally is theirs.
pub record AreTallied (batch : ℕ) (before : Table PaymentBatchRow) (t : Tally)
    (after : Table PaymentBatchRow) : Type 0 where
  pub rows : Table PaymentBatchRow
  pub inserted : after ≡ rows ++ before
  pub total : t.total ≡ total_of rows
  pub valid_rows : t.valid_rows ≡ valid_in rows
  pub error_rows : t.error_rows ≡ errors_in rows
  pub seen : t.seen ≡ paid_in rows
  pub sound : are_sound batch rows ≡ true

checked_phone-cases :
    (seen : List (Text × ℤ)) (row : ParsedBulkRow) (raw : Option Text) (phone : Text)
    → checked_phone seen row raw ≡ some phone
    → (ltb_ℤ (pos 0) row.amount_minor ≡ true)
      × (leb_ℤ row.amount_minor row_limit ≡ true)
      × (was_seen phone row.amount_minor seen ≡ false)
checked_phone-cases seen row none phone h = absurd (cc)
checked_phone-cases seen row (some p) phone h = ground arith

next_row :
    (batch id : ℕ) (before after : Table PaymentBatchRow) (t : Tally) (row : ParsedBulkRow)
    (found : Option Text)
    → ((phone : Text)
        → found ≡ some phone
        → (ltb_ℤ (pos 0) row.amount_minor ≡ true)
          × (leb_ℤ row.amount_minor row_limit ≡ true)
          × (was_seen phone row.amount_minor t.seen ≡ false))
    → AreTallied batch before t after
    → AreTallied batch before (tally row found t) ((id, checked_row batch row found) ∷ after)
next_row batch id before after t row none good h = record {
  rows = (id, checked_row batch row none) ∷ h.rows;
  inserted = ap (◌∷◌ (id, checked_row batch row none)) h.inserted;
  total = h.total;
  valid_rows = h.valid_rows;
  error_rows = ap (λ n. n + 1) h.error_rows;
  seen = h.seen;
  sound = ground (arith, h.sound);
}
next_row batch id before after t row (some phone) good h = record {
  rows = (id, checked_row batch row (some phone)) ∷ h.rows;
  inserted = ap (◌∷◌ (id, checked_row batch row (some phone))) h.inserted;
  total = ap (λ a. a +ℤ row.amount_minor) h.total;
  valid_rows = ap (λ n. n + 1) h.valid_rows;
  error_rows = h.error_rows;
  seen = ap (◌∷◌ (phone, row.amount_minor)) h.seen;
  sound =
      let (low, high, fresh) = good phone refl in
      let unseen : was_seen phone row.amount_minor (paid_in h.rows) ≡ false =
        ap (was_seen phone row.amount_minor) (sym h.seen) ∙ fresh in
      ground (arith, low, high, unseen, h.sound);
}

one_more :
    (row : ParsedBulkRow) (found : Option Text) (t : Tally) (n : ℕ)
    → (tally row found t).valid_rows + (tally row found t).error_rows + n
      ≡ t.valid_rows + t.error_rows + suc n
one_more row none t n = omega arith
one_more row (some phone) t n = omega arith

add_rows-AreTallied :
    (batch : ℕ) (before : Table PaymentBatchRow) (rows : List ParsedBulkRow) (t : Tally)
    (s : BatchDb)
    → AreTallied batch before t s.payment_batch_rows
    → Post
        (λ u after.
          AreTallied batch before u after.payment_batch_rows
          × (u.valid_rows + u.error_rows ≡ t.valid_rows + t.error_rows + length rows)
          × (after.payment_batches ≡ s.payment_batches))
        (add_rows batch rows t)
        s
unfolding add_rows insert_row
add_rows-AreTallied batch before [] t s h = Post-pure t s (h, omega arith, refl)
add_rows-AreTallied batch before (row ∷ rows) t s h =
    let found : Option Text = checked_phone t.seen row (normalize_kenyan_phone row.phone) in
    Post-bind _ _ s (
      Post-bind _ _ s (
        Post-gets _ s (
          Post-bind _ _ s (
            Post-raise_if _ _ s λ fit. Post-modify _ s (
              Post-imp _ _
                (add_rows-AreTallied batch before rows (tally row found t)
                  (add_row (checked_row batch row found) s)
                  (next_row batch s.next_id before s.payment_batch_rows t row found
                    (checked_phone-cases t.seen row (normalize_kenyan_phone row.phone)) h))
                λ u after k. (k.0, k.1 ∙ one_more row found t (length rows), k.2))))))

-- The batch that was made: its rows are the new ones, and its sums are theirs.
pub record IsValidated (i : CreateBatchInput) (v : ValidatedBatch) (s t : BatchDb) : Type 0 where
  pub rows : Table PaymentBatchRow
  pub inserted : t.payment_batch_rows ≡ rows ++ s.payment_batch_rows
  pub counted : v.valid_row_count + v.error_row_count ≡ length i.rows
  pub total : v.total_amount_minor ≡ total_of rows
  pub valid_rows : v.valid_row_count ≡ valid_in rows
  pub error_rows : v.error_row_count ≡ errors_in rows
  pub sound : are_sound v.batch_id rows ≡ true
  pub batch : PaymentBatch
  pub there : find v.batch_id t.payment_batches ≡ some batch
  pub stored :
      (batch.total_amount_minor ≡ v.total_amount_minor)
      × (batch.valid_row_count ≡ v.valid_row_count)
      × (batch.error_row_count ≡ v.error_row_count)

abbrev new_batch : CreateBatchInput → PaymentBatch
new_batch i = record {
  tenant_id = i.tenant_id;
  total_amount_minor = pos 0;
  row_count = length i.rows;
  valid_row_count = 0;
  error_row_count = 0;
  status = validated;
  created_by_id = i.actor_id;
}

find-filled :
    (i : CreateBatchInput) (t : Tally) (s : BatchDb) (batches : Table PaymentBatch)
    → batches ≡ (add_batch i s).payment_batches
    → find s.next_id (update s.next_id (set_totals t) batches) ≡ some (set_totals t (new_batch i))
unfolding find update
find-filled i t s batches e = rw (e, ==_self s.next_id) (rw (==_self s.next_id) refl)

fill_batch-IsValidated :
    (i : CreateBatchInput) (s : BatchDb)
    → Post (λ v t. IsValidated i v s t) (fill_batch i s.next_id) (add_batch i s)
unfolding fill_batch set_batch in_outbox
fill_batch-IsValidated i s =
    let start : AreTallied s.next_id s.payment_batch_rows no_rows s.payment_batch_rows = record {
      rows = [];
      inserted = refl;
      total = refl;
      valid_rows = refl;
      error_rows = refl;
      seen = refl;
      sound = refl;
    } in
    Post-bind _ _ _ (
      Post-imp _ _
        (add_rows-AreTallied s.next_id s.payment_batch_rows i.rows no_rows (add_batch i s) start)
        λ t u k. Post-bind _ _ u (
          Post-modify _ u (
            Post-bind _ _ _ (
              Post-zoom _ _ _ _ (
                Post-any _ _ λ id p. Post-pure _ _ (record {
                  rows = k.0.rows;
                  inserted = k.0.inserted;
                  counted = omega (arith, k.1);
                  total = k.0.total;
                  valid_rows = k.0.valid_rows;
                  error_rows = k.0.error_rows;
                  sound = k.0.sound;
                  batch = set_totals t (new_batch i);
                  there = find-filled i t s u.payment_batches k.2;
                  stored = (refl, refl, refl);
                }))))))

create_batch-Post :
    (i : CreateBatchInput) (s : BatchDb) → Post (λ v t. IsValidated i v s t) (create_batch i) s
unfolding create_batch
create_batch-Post i s = Post-bind _ _ s (
    Post-raise_if _ _ s λ some_row. Post-bind _ _ s (
      Post-raise_if _ _ s λ few. Post-transaction _ s (
        Post-bind _ _ s
          (Post-gets _ s (Post-bind _ _ s (Post-modify _ s (fill_batch-IsValidated i s)))))))

-- When `createBatch` returns, it has inserted a row for each row of the input and changed no other;
-- the sums that it returns and stores are those of the valid rows and of the rows with an error;
-- each valid row pays a positive amount within the limit, and no two of them pay the same amount to
-- the same telephone number.
pub create_batch-IsValidated :
    (i : CreateBatchInput) (s t : BatchDb) (v : ValidatedBatch)
    → create_batch i s ≡ (ok v, t)
    → IsValidated i v s t
create_batch-IsValidated i s t v ran = returned (create_batch-Post i s) ran
