-- ===== src/HashMap.antt =====
-- `std::collections::HashMap` and `dashmap::DashMap` as the code uses them, by the entries; `same` is
-- the `Eq` of the keys. The order of the entries is that of their first insertion, and theorems that
-- depend on an order hold for every one.
pub mod Laws
use aggbook.Prelude.{Bool, Option, some, none, List, [], ◌∷◌, if◌then◌else◌}

abbrev pub HashMap : Type 0 → Type 0 → Type 0
HashMap K V = List (K × V)

module _ {K V : Type 0} (same : K → K → Bool) where
  -- `map.insert(key, value)`: an old value is replaced.
  unfoldable pub insert : K → V → HashMap K V → HashMap K V
  insert k v [] = (k, v) ∷ []
  insert k v ((j, w) ∷ m) =
      let rest = insert k v m in if same j k then (j, v) ∷ m else (j, w) ∷ rest

  -- `map.get(key)`.
  unfoldable pub lookup : K → HashMap K V → Option V
  lookup k [] = none
  lookup k ((j, w) ∷ m) = let rest = lookup k m in if same j k then some w else rest

  -- `map.remove(key)`.
  unfoldable pub remove : K → HashMap K V → HashMap K V
  remove k [] = []
  remove k ((j, w) ∷ m) = let rest = remove k m in if same j k then m else (j, w) ∷ rest

  -- The loop that inserts pairs in order, which is also `collect()`.
  unfoldable pub insert_all : List (K × V) → HashMap K V → HashMap K V
  unfolding insert
  insert_all [] m = m
  insert_all ((k, v) ∷ ps) m = insert_all ps (insert k v m)
