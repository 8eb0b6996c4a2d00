-- ===== src/BTreeMap.antt =====
-- `std::collections::BTreeMap` as `to_proto` uses it (crates/aggserver/src/service/model.rs): its
-- entries in the order of the key's `Ord`, which may panic. Below it: the laws of an entry.
pub mod Laws
use aggbook.Prelude.{Ordering, List, [], ◌∷◌, Outcome, ok, ◌>>=◌}

abbrev pub BTreeMap : Type 0 → Type 0 → Type 0
BTreeMap K V = List (K × V)

module _ {K V : Type 0} where
  -- What is done at the first entry, once the key has been compared with its key: a vacant place is
  -- before it, it is the entry, or the search goes on with the outcome `rest`.
  abbrev pub entry_at :
      Ordering
      → K
      → Outcome V
      → K
      → V
      → (V → Outcome V)
      → BTreeMap K V
      → Outcome (BTreeMap K V)
      → Outcome (BTreeMap K V)
  entry_at Ordering.lt k fresh j w f m rest = do v ← fresh; ok ((k, v) ∷ (j, w) ∷ m)
  entry_at Ordering.eq k fresh j w f m rest = do v ← f w; ok ((j, v) ∷ m)
  entry_at Ordering.gt k fresh j w f m rest = do m' ← rest; ok ((j, w) ∷ m')

  -- `map.entry(key).or_default()`, and `f` on the place that it returns; an occupied entry keeps
  -- the key that it has.
  unfoldable pub entry_or_default :
      (K → K → Outcome Ordering) → K → V → (V → Outcome V) → BTreeMap K V → Outcome (BTreeMap K V)
  entry_or_default cmp k d f [] = do v ← f d; ok ((k, v) ∷ [])
  entry_or_default cmp k d f ((j, w) ∷ m) = do
    o ← cmp k j
    entry_at o k (f d) j w f m (entry_or_default cmp k d f m)
