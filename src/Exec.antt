-- ===== src/Exec.antt =====
-- Commands against the database: state and exceptions, and `db.transaction`.
pub mod Ends
pub mod Keeps
pub mod Post
use z_float_2_main.Prelude.{◌≡◌, Bool, true, false, Option, none, some, if◌then◌else◌}

-- The `code` of the errors that the packages throw. `constraint` is a statement that a trigger or
-- a unique index of the database refuses; `diverges` is a call that does not return.
pub data Code : Type 0 where
  wallet_not_found insufficient_funds journal_unbalanced account_not_found : Code
  payment_not_found modified_concurrently illegal_transition : Code
  invalid_state invalid_amount no_wallet wallet_frozen not_found payee_not_approved : Code
  no_provider_ref provider_error : Code
  policy_error no_steps_required already_resolved maker_checker_violation already_acted : Code
  no_actionable_step role_mismatch : Code
  collection_cancelled wallet_inactive customer_not_found invoice_not_found : Code
  invoice_cancelled invoice_paid invalid_phone amount_too_small amount_too_large : Code
  verify_failed bad_number : Code
  empty_batch too_large : Code
  constraint diverges : Code

pub data Result (A : Type 0) : Type 0 where
  ok : A → Result A
  err : Code → Result A

-- What was written before a throw is still there after it, until a transaction takes it back.
abbrev pub Exec : Type 0 → Type 0 → Type 0
Exec S A = S → Result A × S

module _ {S A : Type 0} where
  unfoldable pub gets : (S → A) → Exec S A
  gets read t = (ok (read t), t)

  unfoldable pub raise : Code → Exec S A
  raise why t = (err why, t)

  unfoldable pub pure : A → Exec S A
  pure x t = (ok x, t)

  abbrev rollback : S → Result A × S → Result A × S
  rollback s (ok a, s') = (ok a, s')
  rollback s (err c, _) = (err c, s)

  -- `db.transaction(async (tx) => …)`; nested, it is a savepoint. A throw takes the writes back
  -- and goes on.
  unfoldable pub transaction : Exec S A → Exec S A
  transaction m s = rollback s (m s)

  -- `try { … } catch (e) { … }`: what comes of the block, for the handler to look at.
  unfoldable pub attempt : Exec S A → Exec S (Result A)
  attempt m s = let (r, s') = m s in (ok r, s')

  unfoldable pub or_raise : Code → Option A → Exec S A
  or_raise c none s = (err c, s)
  or_raise c (some a) s = (ok a, s)

module _ {S : Type 0} where
  unfoldable pub modify : (S → S) → Exec S (Unit {0})
  modify f s = (ok tt, f s)

  -- `if (b) throw …`
  unfoldable pub raise_if : Bool → Code → Exec S (Unit {0})
  raise_if b c s = (if b then err c else ok tt, s)

module _ {S A B : Type 0} where
  -- After a throw the rest is left out.
  abbrev go_on : (A → Exec S B) → Result A → Exec S B
  go_on rest (ok x) t = rest x t
  go_on rest (err why) t = (err why, t)

  infixl 10 ◌>>=◌
  unfoldable pub ◌>>=◌ : Exec S A → (A → Exec S B) → Exec S B
  unfolding raise gets modify or_raise raise_if pure
  ◌>>=◌ first rest t = let (outcome, u) = first t in go_on rest outcome u

  infixl 10 ◌>>◌
  abbrev pub ◌>>◌ : Exec S A → Exec S B → Exec S B
  first >> second = first >>= λ _. second

-- A command on a part of the state.
module _ {S T A : Type 0} (get : S → T) (put : S → T → S) where
  unfoldable pub zoom : Exec T A → Exec S A
  zoom m s = let (r, t) = m (get s) in (r, put s t)
