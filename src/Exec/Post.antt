-- ===== src/Exec/Post.antt =====
-- What holds when a command returns: one rule for each way to build one.
use z_float_2_main.Prelude.{◌≡◌, refl, Bool, true, false, Option, none, some, if◌then◌else◌}
use mathlib.Core.Path.{subst, sym, ap}
use z_float_2_main.Exec.Keeps.{Keeps}
use z_float_2_main.Exec.{
  Code, Result, ok, err, Exec, pure, raise, gets, transaction, modify, raise_if, or_raise, ◌>>=◌,
  zoom,
}

abbrev pub OnOk : {S A : Type 0} → (A → S → Type 0) → Result A × S → Type 0
OnOk P (ok a, s) = P a s
OnOk P (err c, s) = Unit

-- If `m` returns from `s`, then `P` holds of its value and the state that it leaves.
pub record Post {S A : Type 0} (P : A → S → Type 0) (m : Exec S A) (s : S) : Type 0 where
  pub at : OnOk P (m s)

module _ {S A : Type 0} {P : A → S → Type 0} where
  pub Post-pure : (a : A) (s : S) → P a s → Post P (pure a) s
  unfolding pure
  Post-pure a s h = record { at = h }

  pub Post-raise : (c : Code) (s : S) → Post P (raise c) s
  unfolding raise
  Post-raise c s = record { at = tt }

  pub Post-gets : (f : S → A) (s : S) → P (f s) s → Post P (gets f) s
  unfolding gets
  Post-gets f s h = record { at = h }

  pub Post-or_raise :
      (c : Code) (o : Option A) (s : S) → ((a : A) → o ≡ some a → P a s) → Post P (or_raise c o) s
  unfolding or_raise
  Post-or_raise c none s h = record { at = tt }
  Post-or_raise c (some a) s h = record { at = h a refl }

  pub Post-if :
      (b : Bool) (m n : Exec S A) (s : S)
      → (b ≡ true → Post P m s)
      → (b ≡ false → Post P n s)
      → Post P (if b then m else n) s
  Post-if true m n s h k = h refl
  Post-if false m n s h k = k refl

module _ {S : Type 0} {P : Unit {0} → S → Type 0} where
  pub Post-modify : (f : S → S) (s : S) → P tt (f s) → Post P (modify f) s
  unfolding modify
  Post-modify f s h = record { at = h }

  pub Post-raise_if : (b : Bool) (c : Code) (s : S) → (b ≡ false → P tt s) → Post P (raise_if b c) s
  unfolding raise_if
  Post-raise_if true c s h = record { at = tt }
  Post-raise_if false c s h = record { at = h refl }

module _ {S A B : Type 0} (P : B → S → Type 0) where
  continue-Post :
      (r : Result A) (f : A → Exec S B) (s : S)
      → OnOk (λ a t. Post P (f a) t) (r, s)
      → OnOk P (((λ _. (r, s)) >>= f) s)
  unfolding ◌>>=◌
  continue-Post (ok a) f s h = h.at
  continue-Post (err c) f s h = tt

module _ {S A B : Type 0} {P : B → S → Type 0} where
  pub Post-bind :
      (m : Exec S A) (f : A → Exec S B) (s : S)
      → Post (λ a t. Post P (f a) t) m s
      → Post P (m >>= f) s
  unfolding ◌>>=◌
  Post-bind m f s h = record { at = continue-Post P (m s).0 f (m s).1 h.at }

module _ {S A : Type 0} (Q : S → Type 0) where
  rollback_at :
      (s s' : S) (r : Result A)
      → Q s
      → OnOk (λ _ t. Q t) (r, s')
      → Q (transaction (λ _. (r, s')) s).1
  unfolding transaction
  rollback_at s s' (ok a) h k = k
  rollback_at s s' (err c) h k = h

  -- A transaction ends where its body returns, or where it began.
  pub transaction_ends :
      (m : Exec S A) (s : S) → Q s → Post (λ _ t. Q t) m s → Q (transaction m s).1
  unfolding transaction
  transaction_ends m s h k = rollback_at s (m s).1 (m s).0 h k.at

module _ {S A : Type 0} (B : Type 0) where
  continue-raise :
      (r : Result A) (c : Code) (s : S) → (((λ _. (r, s)) >>= λ _. raise {A = B} c) s).1 ≡ s
  unfolding ◌>>=◌
  continue-raise (ok a) c s = refl
  continue-raise (err d) c s = refl

  -- A throw at the end leaves the state as it finds it.
  pub raise_last : (m : Exec S A) (c : Code) (s : S) → ((m >>= λ _. raise {A = B} c) s).1 ≡ (m s).1
  unfolding ◌>>=◌
  raise_last m c s = continue-raise (m s).0 c (m s).1

module _ {S A : Type 0} {P Q : A → S → Type 0} where
  OnOk-imp : (r : Result A × S) → OnOk P r → ((a : A) (t : S) → P a t → Q a t) → OnOk Q r
  OnOk-imp (ok a, t) h k = k a t h
  OnOk-imp (err c, t) h k = tt

  pub Post-imp :
      (m : Exec S A) (s : S) → Post P m s → ((a : A) (t : S) → P a t → Q a t) → Post Q m s
  Post-imp m s h k = record { at = OnOk-imp (m s) h.at k }

module _ {S A : Type 0} (P Q : A → S → Type 0) where
  OnOk-and : (r : Result A × S) → OnOk P r → OnOk Q r → OnOk (λ a t. P a t × Q a t) r
  OnOk-and (ok a, t) h k = (h, k)
  OnOk-and (err c, t) h k = tt

  pub Post-and : (m : Exec S A) (s : S) → Post P m s → Post Q m s → Post (λ a t. P a t × Q a t) m s
  Post-and m s h k = record { at = OnOk-and (m s) h.at k.at }

module _ {S A : Type 0} (P : S → Type 0) where
  OnOk-of : (r : Result A × S) → P r.1 → OnOk (λ _ t. P t) r
  OnOk-of (ok a, t) h = h
  OnOk-of (err c, t) h = tt

  pub Post-of_Keeps : (m : Exec S A) (s : S) → Keeps P m → P s → Post (λ _ t. P t) m s
  Post-of_Keeps m s k h = record { at = OnOk-of (m s) (k.at s h) }

module _ {S A : Type 0} (P : A → S → Type 0) where
  rollback-Post : (s : S) (r : Result A × S) → OnOk P r → OnOk P (transaction (λ _. r) s)
  unfolding transaction
  rollback-Post s (ok a, t) h = h
  rollback-Post s (err c, t) h = tt

module _ {S A : Type 0} {P : A → S → Type 0} where
  pub Post-transaction : (m : Exec S A) (s : S) → Post P m s → Post P (transaction m) s
  unfolding transaction
  Post-transaction m s h = record { at = rollback-Post P s (m s) h.at }

  -- What a rule shows, at a run that returned.
  pub returned : {m : Exec S A} {s : S} {a : A} {t : S} → Post P m s → m s ≡ (ok a, t) → P a t
  returned h e = subst (OnOk P) e h.at

module _ {S A : Type 0} (Q : S → Type 0) where
  kept_at : (s : S) (r : Result A × S) → Q s → OnOk (λ _ t. Q t) r → Q (transaction (λ _. r) s).1
  unfolding transaction
  kept_at s (ok a, t) h k = k
  kept_at s (err c, t) h k = h

  rolled_back :
      (s : S) (r : Result A × S) → OnOk (λ _ t. Q t) (transaction (λ _. r) s) → OnOk (λ _ t. Q t) r
  unfolding transaction
  rolled_back s (ok a, t) h = h
  rolled_back s (err c, t) h = tt

  -- A transaction ends where it returns, or where it began.
  pub transaction_keeps :
      (m : Exec S A) (s : S) → Q s → Post (λ _ t. Q t) (transaction m) s → Q (transaction m s).1
  unfolding transaction
  transaction_keeps m s h k = kept_at s (m s) h (rolled_back s (m s) k.at)

module _ {S A : Type 0} where
  atomic_at :
      (c : Code) (s : S) (r : Result A × S) (t : S) → transaction (λ _. r) s ≡ (err c, t) → t ≡ s
  unfolding transaction
  atomic_at c s (ok a, u) t e = cc
  atomic_at c s (err d, u) t e = sym (ap (λ r. r.1) e)

  -- A transaction that throws leaves no write behind.
  pub transaction_atomic :
      (m : Exec S A) {c : Code} {s t : S} → transaction m s ≡ (err c, t) → t ≡ s
  unfolding transaction
  transaction_atomic m {c} {s} {t} e = atomic_at c s (m s) t e

module _ {S T A : Type 0} (P : A → S → Type 0) (put : S → T → S) (s : S) where
  OnOk-zoom : (r : Result A × T) → OnOk (λ a t. P a (put s t)) r → OnOk P (r.0, put s r.1)
  OnOk-zoom (ok a, t) h = h
  OnOk-zoom (err c, t) h = tt

pub Post-zoom :
    {S T A : Type 0} {P : A → S → Type 0} (get : S → T) (put : S → T → S) (m : Exec T A) (s : S)
    → Post (λ a t. P a (put s t)) m (get s)
    → Post P (zoom get put m) s
unfolding zoom
Post-zoom {P = P} get put m s h = record { at = OnOk-zoom P put s (m (get s)) h.at }

module _ {S A : Type 0} {P : A → S → Type 0} where
  OnOk-any : (r : Result A × S) → ((a : A) (t : S) → P a t) → OnOk P r
  OnOk-any (ok a, t) h = h a t
  OnOk-any (err c, t) h = tt

  -- What holds everywhere holds after any command.
  pub Post-any : (m : Exec S A) (s : S) → ((a : A) (t : S) → P a t) → Post P m s
  Post-any m s h = record { at = OnOk-any (m s) h }
