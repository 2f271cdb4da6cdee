-- ===== src/Exec/Keeps.antt =====
-- Relations between the state before and after a command, one rule for each way to build one.
use z_float_2_main.Prelude.{◌≡◌, refl, Bool, true, false, Option, none, some, if◌then◌else◌}
use z_float_2_main.Exec.{
  Code, Result, ok, err, Exec, pure, raise, gets, transaction, attempt, modify, raise_if, or_raise,
  ◌>>=◌, ◌>>◌, zoom,
}

-- `m` keeps `P`, whether it returns or throws.
pub record Keeps {S A : Type 0} (P : S → Type 0) (m : Exec S A) : Type 0 where
  pub at : (s : S) → P s → P (m s).1

module _ {S A : Type 0} (P : S → Type 0) where
  transaction_at : (s s' : S) (r : Result A) → P s → P s' → P (transaction (λ _. (r, s')) s).1
  unfolding transaction
  transaction_at s s' (ok a) h h' = h'
  transaction_at s s' (err c) h h' = h

-- A command that writes nothing keeps whatever held.
module _ {S A : Type 0} {P : S → Type 0} where
  pub Keeps-gets : (read : S → A) → Keeps P (gets read)
  unfolding gets
  Keeps-gets read = record { at = λ _ before. before }

  pub Keeps-or_raise : (why : Code) (o : Option A) → Keeps P (or_raise why o)
  unfolding or_raise
  Keeps-or_raise why none = record { at = λ _ before. before }
  Keeps-or_raise why (some x) = record { at = λ _ before. before }

  pub Keeps-raise : (why : Code) → Keeps P (raise {A = A} why)
  unfolding raise
  Keeps-raise why = record { at = λ _ before. before }

  pub Keeps-pure : (x : A) → Keeps P (pure x)
  unfolding pure
  Keeps-pure x = record { at = λ _ before. before }

  pub Keeps-transaction : (m : Exec S A) → Keeps P m → Keeps P (transaction m)
  unfolding transaction
  Keeps-transaction m k = record {
    at = λ s h. let (r, s') = m s in transaction_at P s s' r h (k.at s h);
  }

  pub Keeps-attempt : (m : Exec S A) → Keeps P m → Keeps P (attempt m)
  unfolding attempt
  Keeps-attempt m k = record { at = k.at }

  pub Keeps-if : (b : Bool) (m n : Exec S A) → Keeps P m → Keeps P n → Keeps P (if b then m else n)
  Keeps-if true m n km kn = km
  Keeps-if false m n km kn = kn

module _ {S : Type 0} {P : S → Type 0} where
  pub Keeps-raise_if : (b : Bool) (c : Code) → Keeps P (raise_if b c)
  unfolding raise_if
  Keeps-raise_if b c = record { at = λ s h. h }

  pub Keeps-modify : (f : S → S) → ((s : S) → P s → P (f s)) → Keeps P (modify f)
  unfolding modify
  Keeps-modify f k = record { at = k }

module _ {S A B : Type 0} {P : S → Type 0} where
  continue_at :
      (outcome : Result A) (rest : A → Exec S B)
      → ((x : A) → Keeps P (rest x))
      → (t : S) → P t
      → P (((λ _. (outcome, t)) >>= rest) t).1
  unfolding ◌>>=◌
  continue_at (ok x) rest k t before = (k x).at t before
  continue_at (err why) rest k t before = before

  pub Keeps-bind :
      (first : Exec S A) (rest : A → Exec S B)
      → Keeps P first
      → ((x : A) → Keeps P (rest x))
      → Keeps P (first >>= rest)
  unfolding ◌>>=◌
  Keeps-bind first rest k l = record {
    at = λ t before. let (outcome, u) = first t in continue_at outcome rest l u (k.at t before);
  }

  pub Keeps-then : (m : Exec S A) (n : Exec S B) → Keeps P m → Keeps P n → Keeps P (m >> n)
  Keeps-then m n km kn = Keeps-bind m (λ _. n) km (λ _. kn)

module _ {S A : Type 0} {P : S → Type 0} where
  pub Keeps-guard : (b : Bool) (c : Code) (n : Exec S A) → Keeps P n → Keeps P (raise_if b c >> n)
  Keeps-guard b c n kn = Keeps-then (raise_if b c) n (Keeps-raise_if b c) kn

module _ {S A B : Type 0} {P : S → Type 0} where
  -- What is read, and what was found, is known in the rest.
  pub Keeps-found :
      (why : Code) (o : Option A) (rest : A → Exec S B)
      → ((x : A) → o ≡ some x → Keeps P (rest x))
      → Keeps P (or_raise why o >>= rest)
  unfolding or_raise ◌>>=◌
  Keeps-found why none rest k = record { at = λ _ before. before }
  Keeps-found why (some x) rest k = record { at = (k x refl).at }

pub Keeps-read :
    {S A B : Type 0} (P : S → Type 0) (read : S → A) (rest : A → Exec S B) (s : S)
    → P (rest (read s) s).1
    → P ((gets read >>= rest) s).1
unfolding gets ◌>>=◌
Keeps-read P read rest s h = h

-- A command on a part of the state keeps what it keeps of that part.
pub Keeps-zoom :
    {S T A : Type 0} {P : S → Type 0} {Q : T → Type 0} (get : S → T) (put : S → T → S)
    (m : Exec T A)
    → ((s : S) → P s → Q (get s))
    → ((s : S) (t : T) → P s → Q t → P (put s t))
    → Keeps Q m
    → Keeps P (zoom get put m)
unfolding zoom
Keeps-zoom get put m out back k = record {
  at = λ s h. let (r, t) = m (get s) in back s t h (k.at (get s) (out s h));
}

pub ruleset keeps_rules = (
  Keeps-or_raise, Keeps-gets, Keeps-pure, Keeps-raise, Keeps-transaction, Keeps-attempt,
  Keeps-raise_if, Keeps-guard, Keeps-bind, Keeps-then,
)
