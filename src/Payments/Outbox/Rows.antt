-- ===== src/Payments/Outbox/Rows.antt =====
-- The rows of the outbox under packages/payments-core/src/outbox.ts.
use z_float_2_main.Prelude.{
  ==_self, ℕ, zero, suc, ◌+◌, ◌-◌, ◌≤◌, ◌<◌, ◌≡◌, refl, sym, ap, ◌∙◌, Bool, true, false, ◌||◌, none,
  some, List, [], ◌∷◌, ◌==◌, arith, if◌then◌else◌, keep, take, reverse, any, length, All, All-imp,
  All-keep, length-reverse_onto, All-take, All-reverse_onto, Bool-cases, inl, inr,
}
use z_float_2_main.Table.{Table, find, update}
use mathlib.Core.Option.{some-injective}
use z_float_2_main.Payments.Tables.{OutboxEvent}
use z_float_2_main.Payments.Outbox.{set_published, add_attempt, is_due}

-- How many more failures an event is tried for.
unfoldable pub trials : OutboxEvent → ℕ
trials e = if is_due e then 10 - e.attempts else 0

abbrev pub trials_of : Table OutboxEvent → ℕ
trials_of [] = 0
trials_of ((id, e) ∷ rows) = trials e + trials_of rows

published_less :
    (now : ℕ) (e : OutboxEvent) → is_due e ≡ true → trials (set_published now e) < trials e
unfolding trials
published_less now e h = ground arith

pub attempt_less : (e : OutboxEvent) → is_due e ≡ true → trials (add_attempt e) < trials e
unfolding trials
attempt_less e h = ground arith

published_le : (now : ℕ) (e : OutboxEvent) → trials (set_published now e) ≤ trials e
unfolding trials
published_le now e = ground arith

pub attempt_le : (e : OutboxEvent) → trials (add_attempt e) ≤ trials e
unfolding trials
attempt_le e = ground arith

module _ (f : OutboxEvent → OutboxEvent) (id : ℕ) where
  update_le :
      ((e : OutboxEvent) → trials (f e) ≤ trials e)
      → (rows : Table OutboxEvent) → trials_of (update id f rows) ≤ trials_of rows
  unfolding update
  update_le h [] = omega arith
  update_le h ((j, e) ∷ rows) = elim (Bool-cases (j == id)) [
    | inl here ↦ rw here (omega (arith, h e))
    | inr there ↦ rw there (omega (arith, update_le h rows))
  ]

  update_less :
      (e : OutboxEvent)
      → trials (f e) < trials e
      → (rows : Table OutboxEvent) → find id rows ≡ some e
      → trials_of (update id f rows) < trials_of rows
  unfolding update find
  update_less e h [] there = absurd (cc)
  update_less e h ((j, x) ∷ rows) there = elim (Bool-cases (j == id)) [
    | inl here ↦
        let same : x ≡ e = some-injective x e (sym (rw here refl) ∙ there) in
        rw here (let less : trials (f x) < trials x = rw same h in omega (arith, less))
    | inr apart ↦ rw apart (omega (arith, update_less e h rows (sym (rw apart refl) ∙ there)))
  ]

-- The keys of the rows are distinct, as primary keys are.
abbrev pub has_key : ℕ → Table OutboxEvent → Bool
has_key id rows = any (λ r. r.0 == id) rows

abbrev pub AreDistinct : Table OutboxEvent → Type 0
AreDistinct [] = Unit
AreDistinct ((id, e) ∷ rows) = (has_key id rows ≡ false) × AreDistinct rows

has_key-update :
    (f : OutboxEvent → OutboxEvent) (k id : ℕ) (rows : Table OutboxEvent)
    → has_key k (update id f rows) ≡ has_key k rows
unfolding update
has_key-update f k id [] = refl
has_key-update f k id ((j, e) ∷ rows) = elim (Bool-cases (j == id)) [
  | inl here ↦ rw here refl
  | inr apart ↦ rw apart (ap (λ b. (j == k) || b) (has_key-update f k id rows))
]

pub update-AreDistinct :
    (f : OutboxEvent → OutboxEvent) (id : ℕ) (rows : Table OutboxEvent)
    → AreDistinct rows
    → AreDistinct (update id f rows)
unfolding update
update-AreDistinct f id [] h = tt
update-AreDistinct f id ((j, e) ∷ rows) h = elim (Bool-cases (j == id)) [
  | inl here ↦ rw here h
  | inr apart ↦ rw apart (has_key-update f j id rows ∙ h.0, update-AreDistinct f id rows h.1)
]

-- What a tick does to the rows.
unfoldable pub mark : ℕ → ℕ → Bool → Table OutboxEvent → Table OutboxEvent
mark now id true rows = update id (set_published now) rows
mark now id false rows = update id add_attempt rows

pub mark_le :
    (now id : ℕ) (b : Bool) (rows : Table OutboxEvent)
    → trials_of (mark now id b rows) ≤ trials_of rows
unfolding mark
mark_le now id true rows = update_le (set_published now) id (published_le now) rows
mark_le now id false rows = update_le add_attempt id attempt_le rows

pub mark_less :
    (now id : ℕ) (b : Bool) (e : OutboxEvent) (rows : Table OutboxEvent)
    → is_due e ≡ true
    → find id rows ≡ some e
    → trials_of (mark now id b rows) < trials_of rows
unfolding mark
mark_less now id true e rows due there =
    update_less (set_published now) id e (published_less now e due) rows there
mark_less now id false e rows due there =
    update_less add_attempt id e (attempt_less e due) rows there

pub mark-AreDistinct :
    (now id : ℕ) (b : Bool) (rows : Table OutboxEvent)
    → AreDistinct rows
    → AreDistinct (mark now id b rows)
unfolding mark
mark-AreDistinct now id true rows h = update-AreDistinct (set_published now) id rows h
mark-AreDistinct now id false rows h = update-AreDistinct add_attempt id rows h

pub same_key : (j k : ℕ) → (j == k) ≡ true → j ≡ k
same_key j k h = ground arith

-- An event that is due, and that its key finds.
unfoldable pub IsReady : Table OutboxEvent → ℕ × OutboxEvent → Type 0
IsReady rows r = (find r.0 rows ≡ some r.1) × (is_due r.1 ≡ true)

pub no_key : (id : ℕ) (rows : Table OutboxEvent) → has_key id rows ≡ false → find id rows ≡ none
unfolding find
no_key id [] h = refl
no_key id ((j, e) ∷ rows) h = ground (arith, no_key id rows)

pub found_behind :
    (id : ℕ) (e : OutboxEvent) (rows : Table OutboxEvent)
    → has_key id rows ≡ false
    → (r : ℕ × OutboxEvent) → find r.0 rows ≡ some r.1
    → find r.0 ((id, e) ∷ rows) ≡ some r.1
unfolding find
found_behind id e rows h (k, x) there = elim (Bool-cases (id == k)) [
  | inl same ↦
      let never : none ≡ some x = sym (no_key id rows h) ∙ (rw (same_key id k same) there) in cc
  | inr apart ↦ rw apart there
]

pub found-All :
    (rows : Table OutboxEvent) → AreDistinct rows → All (λ r. find r.0 rows ≡ some r.1) rows
unfolding find
found-All [] h = tt
found-All ((id, e) ∷ rows) h = (
  rw (==_self id) refl,
  All-imp (λ r. find r.0 rows ≡ some r.1) (λ r. find r.0 ((id, e) ∷ rows) ≡ some r.1) rows
      (found_behind id e rows h.0) (found-All rows h.1),
)

abbrev pub pulled : ℕ → Table OutboxEvent → Table OutboxEvent
pulled limit rows = take limit (reverse (keep (λ r. is_due r.1) rows))

pub pulled-IsReady :
    (limit : ℕ) (rows : Table OutboxEvent)
    → AreDistinct rows
    → All (IsReady rows) (pulled limit rows)
unfolding IsReady
pulled-IsReady limit rows h = All-take (IsReady rows) limit _ (
    All-reverse_onto (IsReady rows) (keep (λ r. is_due r.1) rows) []
      (All-keep (λ r. find r.0 rows ≡ some r.1) (λ r. is_due r.1) rows (found-All rows h)) tt)

pub kept_due :
    (rows : Table OutboxEvent) → 0 < trials_of rows → 0 < length (keep (λ r. is_due r.1) rows)
unfolding trials
kept_due [] h = h
kept_due ((id, e) ∷ rows) h = ground (arith, kept_due rows)

pub take_some : {A : Type 0} (n : ℕ) (xs : List A) → 0 < n → 0 < length xs → 0 < length (take n xs)
take_some zero xs h k = h
take_some (suc n) [] h k = k
take_some (suc n) (x ∷ xs) h k = omega arith

pub pulled_some :
    (limit : ℕ) (rows : Table OutboxEvent)
    → 0 < limit
    → 0 < trials_of rows
    → 0 < length (pulled limit rows)
pulled_some limit rows h k =
    take_some limit _ h
      (rw (length-reverse_onto (keep (λ r. is_due r.1) rows) []) (omega (arith, kept_due rows k)))
