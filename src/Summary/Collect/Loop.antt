-- ===== src/Summary/Collect/Loop.antt =====
-- A step of the loop of `to_proto` over levels keeps the invariant of the maps, and panics only where one price has more
-- levels than an array has room for.

use aggbook.Prelude.{
  ℕ, ◌≤◌, ◌<◌, ◌≡◌, refl, ap, sym, subst, ◌∙◌, List, [], ◌∷◌, ◌++◌, length, Outcome, ok, ◌>>=◌,
  >>=-eq-ok, ok-injective, All, All-imp, All-right, arith,
}
use aggbook.Keys.Order.{PriceKey}
use aggbook.BTreeMap.{BTreeMap, entry_or_default}
use aggbook.BTreeMap.Laws.{Entry, vacant, occupied, entry_or_default-Entry}
use aggbook.Summary.{Level}
use aggbook.Summary.Collect.{
  IsArrayVec, place_of, count_at, IsEntry, Collected, array_push-eq-ok, push_vacant, push_occupied,
}

module _ (side : PriceKey) (n : ℕ) (array_push : List Level → Level → Outcome (List Level))
    (array : IsArrayVec n array_push) where
  open side use {Key, new, cmp, place, IsGood, new_good, law}

  -- One step of the loop.
  abbrev pub push_level : Level → BTreeMap Key (List Level) → Outcome (BTreeMap Key (List Level))
  push_level x m = entry_or_default cmp (new x.price) [] (λ v. array_push v x) m

  entry_of :
      (x : Level) (m : BTreeMap Key (List Level)) (ls : List Level)
      → Collected side m ls
      → Entry cmp place IsGood law (new x.price) [] (λ v. array_push v x) m
  entry_of x m ls h =
      entry_or_default-Entry cmp place IsGood law (new x.price) [] (λ v. array_push v x) m
        (new_good x.price) (h.ordered, All-imp (λ p (e : IsEntry side ls p). e.good) m h.each)

  pub push_level-Collected :
      (x : Level) (m m' : BTreeMap Key (List Level)) (ls : List Level)
      → Collected side m ls
      → push_level x m ≡ ok m'
      → Collected side m' (x ∷ ls)
  push_level-Collected x m m' ls h e = go (entry_of x m ls h)
    where
      go :
          Entry cmp place IsGood law (new x.price) [] (λ v. array_push v x) m
          → Collected side m' (x ∷ ls)
      go (vacant l r s a b f) =
          let (v, p, q) = >>=-eq-ok (array_push [] x) _ (sym f ∙ e) in
          let v' = array_push-eq-ok n array_push array [] x p in
          subst (λ m. Collected side m (x ∷ ls))
            (ap (λ v. l ++ (new x.price, v) ∷ r) (sym v') ∙ ok-injective q)
            (push_vacant side x ls (new x.price) l r (new_good x.price) refl a b
              (subst (λ m. Collected side m ls) s h))
      go (occupied l r j w i s a b f) =
          let (v, p, q) = >>=-eq-ok (array_push w x) _ (sym f ∙ e) in
          let v' = array_push-eq-ok n array_push array w x p in
          subst (λ m. Collected side m (x ∷ ls))
            (ap (λ v. l ++ (j, v) ∷ r) (sym v') ∙ ok-injective q)
            (push_occupied side x ls j w l r (sym i) (subst (λ m. Collected side m ls) s h))

  -- A step panics only where the array of its price is full.
  pub push_level-total :
      (x : Level) (m : BTreeMap Key (List Level)) (ls : List Level)
      → Collected side m ls
      → count_at side (place_of side x) ls < n
      → (m' : BTreeMap Key (List Level)) × (push_level x m ≡ ok m')
  push_level-total x m ls h room = go (entry_of x m ls h)
    where
      fits :
          (v : List Level)
          → length v ≤ count_at side (place_of side x) ls
          → array_push v x ≡ ok (v ++ x ∷ [])
      fits v k = ground (arith, array.push_lem v x)

      go :
          Entry cmp place IsGood law (new x.price) [] (λ v. array_push v x) m
          → (m' : BTreeMap Key (List Level)) × (push_level x m ≡ ok m')
      go (vacant l r s a b f) = (
        l ++ (new x.price, x ∷ []) ∷ r,
        f ∙ ap (λ o. o >>= λ v. ok (l ++ (new x.price, v) ∷ r)) (fits [] (omega arith)),
      )
      go (occupied l r j w i s a b f) =
          let e =
            (All-right (IsEntry side ls) l ((j, w) ∷ r)
              (subst (All (IsEntry side ls)) s h.each)).0 in
          (
            l ++ (j, w ++ x ∷ []) ∷ r,
            f ∙ ap (λ o. o >>= λ v. ok (l ++ (j, v) ∷ r)) (fits w (rw i at e.counted)),
          )
