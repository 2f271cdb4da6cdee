-- ===== src/Exec/Ends.antt =====
-- Where a run from one state ends, whether it returns or throws.
use z_float_2_main.Prelude.{◌≡◌, refl, Bool, true, false, Option, none, some, if◌then◌else◌}
use z_float_2_main.Exec.{Code, Exec, gets, raise_if, or_raise, ◌>>=◌, ◌>>◌, modify}

module _ {S A B : Type 0} (P : S → Type 0) where
  pub Ends-gets : (g : S → A) (f : A → Exec S B) (s : S) → P (f (g s) s).1 → P ((gets g >>= f) s).1
  unfolding gets ◌>>=◌
  Ends-gets g f s h = h

  pub Ends-or_raise :
      (c : Code) (o : Option A) (f : A → Exec S B) (s : S)
      → P s
      → ((a : A) → o ≡ some a → P (f a s).1)
      → P ((or_raise c o >>= f) s).1
  unfolding or_raise ◌>>=◌
  Ends-or_raise c none f s h k = h
  Ends-or_raise c (some a) f s h k = k a refl

module _ {S A : Type 0} (P : S → Type 0) where
  pub Ends-guard :
      (b : Bool) (c : Code) (n : Exec S A) (s : S)
      → P s
      → (b ≡ false → P (n s).1)
      → P ((raise_if b c >> n) s).1
  unfolding raise_if ◌>>=◌
  Ends-guard true c n s h k = h
  Ends-guard false c n s h k = k refl

  pub Ends-if :
      (b : Bool) (m n : Exec S A) (s : S)
      → (b ≡ true → P (m s).1)
      → (b ≡ false → P (n s).1)
      → P ((if b then m else n) s).1
  Ends-if true m n s h k = h refl
  Ends-if false m n s h k = k refl

pub Ends-modify : {S : Type 0} (P : S → Type 0) (f : S → S) (s : S) → P (f s) → P (modify f s).1
unfolding modify
Ends-modify P f s h = h
