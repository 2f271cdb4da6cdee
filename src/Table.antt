-- ===== src/Table.antt =====
-- Tables of the database: rows by primary key, in order of insertion, the newest first.
use z_float_2_main.Prelude.{
  ℕ, ◌≡◌, Bool, Option, none, some, List, [], ◌∷◌, arith, ◌==◌, if◌then◌else◌,
}
use mathlib.Core.Option

abbrev pub Table : Type 0 → Type 0
Table R = List (ℕ × R)

module _ {R : Type 0} where
  -- `select().where(eq(id, k))`
  unfoldable pub find : ℕ → Table R → Option R
  find k [] = none
  find k ((j, r) ∷ t) = if j == k then some r else find k t

  -- `select().where(p).limit(1)`
  unfoldable pub find_where : (R → Bool) → Table R → Option (ℕ × R)
  find_where p [] = none
  find_where p ((j, r) ∷ t) = if p r then some (j, r) else find_where p t

  -- `update().set(f).where(eq(id, k))`
  unfoldable pub update : ℕ → (R → R) → Table R → Table R
  update k f [] = []
  update k f ((j, r) ∷ t) = if j == k then (j, f r) ∷ t else (j, r) ∷ update k f t

  pub find-update :
      (j k : ℕ) (f : R → R) (t : Table R)
      → find j (update k f t) ≡ (if j == k then Option.map f (find j t) else find j t)
  unfolding find update
  find-update j k f [] = ground arith
  find-update j k f ((i, r) ∷ t) = ground (arith, find-update j k f t)
