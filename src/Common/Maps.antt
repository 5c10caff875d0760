-- ===== src/Common/Maps.antt =====
-- A hash map with texts for keys, as an association list: one pair for each key.
use mathlib.Core.Bool.{Bool, true, false}
use mathlib.Core.Option.{Option, none, some}
use mathlib.Core.List.{List, [], ◌∷◌}
use minifto.Common.Tests.{Bytes, ◌=?◌, if◌then◌else◌}

module _ {ℓ} {V : Type ℓ} where
  -- `map.get(key)`
  unfoldable pub lookup : Bytes → List (Bytes × V) → Option V
  lookup k [] = none
  lookup k ((j, v) ∷ m) = if j =? k then some v else lookup k m

  unfoldable pub insert : Bytes → V → List (Bytes × V) → List (Bytes × V)
  insert k v [] = (k, v) ∷ []
  insert k v ((j, w) ∷ m) = if j =? k then (j, v) ∷ m else (j, w) ∷ insert k v m

  insert_all : List (Bytes × V) → List (Bytes × V) → List (Bytes × V)
  unfolding insert
  insert_all [] m = m
  insert_all ((k, v) ∷ pairs) m = insert_all pairs (insert k v m)

  -- `HashMap::from(pairs)`: a later pair replaces an earlier one.
  unfoldable pub from_pairs : List (Bytes × V) → List (Bytes × V)
  unfolding insert_all
  from_pairs pairs = insert_all pairs []

-- `is_some`, as in `map.contains_key(key)`
abbrev pub is_some {ℓ} : {A : Type ℓ} → Option A → Bool
is_some none = false
is_some (some a) = true
