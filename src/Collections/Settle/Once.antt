-- ===== src/Collections/Settle/Once.antt =====
-- Settling a collection once (packages/payments-core/src/collections.ts).
use mathlib.Core.Option
use z_float_2_main.Prelude.{List, ℕ, ◌≡◌, Option, some}
use z_float_2_main.Exec.{Exec, zoom}
use z_float_2_main.Exec.Keeps.{Keeps}
use z_float_2_main.Exec.Post.{Post}
use z_float_2_main.Table.{find}
use z_float_2_main.Payments.Store.{Store}
use z_float_2_main.Collections.Tables.{CollectionStatus, success, Collection, Portal, in_store}

-- The collection has the status.
unfoldable pub status_of : ℕ → Portal → Option CollectionStatus
status_of id s = Option.map (λ c. c.status) (find id s.collections)

abbrev pub IsSettled : ℕ → Portal → Type 0
IsSettled id s = status_of id s ≡ some success

-- What a command on another table keeps of the collections.
module _ (P : List (ℕ × Collection) → Type 0) where
  abbrev OfRows : Portal → Type 0
  OfRows s = P s.collections

  pub in_store-OfRows : {A : Type 0} (m : Exec Store A) → Keeps OfRows (in_store m)
  unfolding in_store zoom
  in_store-OfRows m = record { at = λ s h. h }

abbrev HasRow : ℕ → Collection → Portal → Type 0
HasRow id col s = find id s.collections ≡ some col
