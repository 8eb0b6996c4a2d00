-- ===== src/Summary/Collect/Gather.antt =====
-- The loop of `to_proto` over one side of a snapshot.
use mathlib.Core.List.{perm_middle}
use mathlib.Core.List.Perm
use aggbook.Prelude.{
  ℕ, ◌+◌, ◌≤◌, ◌≡◌, refl, subst, List, [], ◌∷◌, ◌++◌, map, Perm, Outcome, ok, >>=-eq-ok,
  ok-injective, arith,
}
use aggbook.Sources.{SourceId}
use aggbook.Book.{PriceLevel}
use aggbook.BTreeMap.{BTreeMap}
use aggbook.Keys.Order.{PriceKey}
use aggbook.Summary.{Level, level_proto, collect}
use aggbook.Summary.Collect.{IsArrayVec, place_of, count_at, Collected}
use aggbook.Summary.Collect.Loop.{push_level-Collected, push_level-total}

-- The order in which a loop has met the levels, the last one first.
abbrev pub gathered : List Level → List Level → List Level
gathered [] ls = ls
gathered (x ∷ xs) ls = gathered xs (x ∷ ls)

pub gathered-perm : (xs ls : List Level) → Perm (gathered xs ls) (xs ++ ls)
gathered-perm [] ls = Perm.refl ls
gathered-perm (x ∷ xs) ls = Perm.trans (gathered-perm xs (x ∷ ls)) (perm_middle xs ls)

pub gathered-append :
    (xs ys ls : List Level) → gathered (xs ++ ys) ls ≡ gathered ys (gathered xs ls)
gathered-append [] ys ls = refl
gathered-append (x ∷ xs) ys ls = gathered-append xs ys (x ∷ ls)

pub count_at-gathered :
    (side : PriceKey) (q : ℕ) (xs ls : List Level)
    → count_at side q (gathered xs ls) ≡ count_at side q xs + count_at side q ls
count_at-gathered side q [] ls = omega arith
count_at-gathered side q (x ∷ xs) ls = omega (arith, count_at-gathered side q xs (x ∷ ls))

-- No price has more levels than an array has room for.
abbrev pub HasRoom : PriceKey → ℕ → List Level → Type 0
HasRoom side n ls = (q : ℕ) → count_at side q ls ≤ n

module _ (n : ℕ) (array_push : List Level → Level → Outcome (List Level))
    (array : IsArrayVec n array_push) where
  module _ (side : PriceKey) where
    open side use {Key, new, cmp}

    pub collect-Collected :
        (source : SourceId) (l : List PriceLevel) (m m' : BTreeMap Key (List Level))
        (ls : List Level)
        → Collected side m ls
        → collect array_push cmp new source l m ≡ ok m'
        → Collected side m' (gathered (map (level_proto source) l) ls)
    unfolding collect
    collect-Collected source [] m m' ls h e = subst (λ m. Collected side m ls) (ok-injective e) h
    collect-Collected source (x ∷ l) m m' ls h e =
        let (next, p, q) = >>=-eq-ok _ (collect array_push cmp new source l) e in
        collect-Collected source l next m' (level_proto source x ∷ ls)
          (push_level-Collected side n array_push array (level_proto source x) m next ls h p) q

    pub collect-total :
        (source : SourceId) (l : List PriceLevel) (m : BTreeMap Key (List Level)) (ls : List Level)
        → Collected side m ls
        → HasRoom side n (gathered (map (level_proto source) l) ls)
        → (m' : BTreeMap Key (List Level)) × (collect array_push cmp new source l m ≡ ok m')
    unfolding collect
    collect-total source [] m ls h room = (m, refl)
    collect-total source (x ∷ l) m ls h room =
        let y = level_proto source x in
        let q = place_of side y in
        let (next, e) = push_level-total side n array_push array y m ls h (
          ground (arith, room q, count_at-gathered side q (map (level_proto source) l) (y ∷ ls))) in
        let (m', f) =
          collect-total source l next (y ∷ ls)
            (push_level-Collected side n array_push array y m next ls h e) room in
        (m', rw e f)
