-- ===== src/Summary/Best.antt =====
-- What is sent of one side: the levels of the `n` best prices, the best price first and, at one
-- price, the greatest amount first.
use mathlib.Core.List.Perm
use aggbook.Prelude.{
  ℕ, zero, suc, ◌+◌, ◌≤◌, ◌<◌, ◌≡◌, refl, ap, sym, subst, ◌∙◌, ◌⊎◌, inl, inr, List, [], ◌∷◌, ◌++◌,
  Perm, length, length-perm, length-take, take, drop, take-append-drop, ok, >>=-eq-ok, ok-injective,
  ◌==◌, if◌then◌else◌, All, All-imp, All-left, All-right, All-perm, All-append, Ordered,
  Ordered-append, Ordered-split, Ordered-imp, arith,
}
use aggbook.BTreeMap.{BTreeMap}
use aggbook.Keys.Order.{PriceKey}
use aggbook.Summary.{Level, flat_sorted, sort_by_amount}
use aggbook.Summary.Sort.{
  AmountBefore, sort_by_amount_lem, sort_by_amount-All, HasAmount, sort_by_amount-total,
}
use aggbook.Summary.Collect.{entries, entries-append, place_of, IsEntry, KeyBefore, Collected}

module _ (side : PriceKey) where
  open side use {Key, place}

  -- The better price stands first, and at one price the greater amount.
  abbrev pub Before : Level → Level → Type 0
  Before a b =
      (place_of side a < place_of side b) ⊎ ((place_of side a ≡ place_of side b) × AmountBefore a b)

  -- How often the price changes along a list: the number of prices, where the list is ordered.
  abbrev pub prices : List Level → ℕ
  prices [] = 0
  prices (x ∷ []) = 1
  prices (x ∷ y ∷ ls) = (if place_of side x == place_of side y then 0 else 1) + prices (y ∷ ls)

  prices-group :
      (q : ℕ) (s r : List Level)
      → 0 < length s
      → All (λ l. place_of side l ≡ q) s
      → All (λ l. q < place_of side l) r
      → prices (s ++ r) ≡ suc (prices r)
  prices-group q [] r h a b = absurd (omega arith)
  prices-group q (x ∷ []) [] h a b = refl
  prices-group q (x ∷ []) (y ∷ r) h (a, _) (b, _) = ground arith
  prices-group q (x ∷ x' ∷ s) r h (a, as') b =
      ground (arith, prices-group q (x' ∷ s) r (omega arith) as' b)

  -- The levels of a map, each at the place of its entry.
  entries-All :
      (P : ℕ → Type 0) (ls : List Level) (m : BTreeMap Key (List Level))
      → All (IsEntry side ls) m
      → All (λ p. P (place p.0)) m
      → All (λ l. P (place_of side l)) (entries m)
  entries-All P ls [] _ _ = tt
  entries-All P ls ((k, v) ∷ m) (e, es) (h, hs) =
      All-append (λ l. P (place_of side l)) v (entries m)
        (All-imp (λ l a. subst P (sym a) h) v e.grouped) (entries-All P ls m es hs)

  flat_sorted-All :
      (P : ℕ → Type 0) (ls : List Level) (m : BTreeMap Key (List Level)) {out : List Level}
      → All (IsEntry side ls) m
      → All (λ p. P (place p.0)) m
      → flat_sorted m ≡ ok out
      → All (λ l. P (place_of side l)) out
  unfolding flat_sorted
  flat_sorted-All P ls [] _ _ f = subst (All (λ l. P (place_of side l))) (ok-injective f) tt
  flat_sorted-All P ls ((k, v) ∷ m) (e, es) (h, hs) f =
      let (s, p, q) = >>=-eq-ok (sort_by_amount v) _ f in
      let (r, p', q') = >>=-eq-ok (flat_sorted m) _ q in
      subst (All (λ l. P (place_of side l))) (ok-injective q') (
        All-append (λ l. P (place_of side l)) s r
          (sort_by_amount-All (λ l. P (place_of side l)) v
            (All-imp (λ l a. subst P (sym a) h) v e.grouped) p)
          (flat_sorted-All P ls m es hs p'))

  flat_sorted-perm :
      (m : BTreeMap Key (List Level)) {out : List Level}
      → flat_sorted m ≡ ok out
      → Perm out (entries m)
  unfolding flat_sorted
  flat_sorted-perm [] f = rw (← ok-injective f) Perm.nil
  flat_sorted-perm ((k, v) ∷ m) f =
      let (s, p, q) = >>=-eq-ok (sort_by_amount v) _ f in
      let (r, p', q') = >>=-eq-ok (flat_sorted m) _ q in
      rw (← ok-injective q') (Perm.append (sort_by_amount_lem v p).0 (flat_sorted-perm m p'))

  -- The levels of one price, sorted, in front of those of worse prices.
  sorted_group :
      (q : ℕ) (s r : List Level)
      → All (λ l. place_of side l ≡ q) s
      → Ordered AmountBefore s
      → All (λ l. q < place_of side l) r
      → Ordered Before r
      → Ordered Before (s ++ r)
  sorted_group q s r a o b o' =
      Ordered-append Before s r
        (Ordered-imp (λ l. place_of side l ≡ q) AmountBefore Before
          (λ x y h k c. inr (h ∙ sym k, c)) s a o)
        o' (All-imp (λ x h. All-imp (λ y k. inl (rw h k)) r b) s a)

  flat_sorted-Ordered :
      (ls : List Level) (m : BTreeMap Key (List Level)) {out : List Level}
      → All (IsEntry side ls) m
      → Ordered (KeyBefore side) m
      → flat_sorted m ≡ ok out
      → Ordered Before out × (prices out ≡ length m)
  unfolding flat_sorted
  flat_sorted-Ordered ls [] _ _ f = rw (← ok-injective f) (tt, refl)
  flat_sorted-Ordered ls ((k, v) ∷ m) (e, es) (above, o) f =
      let (s, p, q) = >>=-eq-ok (sort_by_amount v) _ f in
      let (r, p', q') = >>=-eq-ok (flat_sorted m) _ q in
      let (o', c) = flat_sorted-Ordered ls m es o p' in
      let a = sort_by_amount-All (λ l. place_of side l ≡ place k) v e.grouped p in
      let b = flat_sorted-All (λ x. place k < x) ls m es above p' in
      rw (← ok-injective q') (
        sorted_group (place k) s r a (sort_by_amount_lem v p).1 b o',
        prices-group (place k) s r
              (omega (arith, length-perm (sort_by_amount_lem v p).0, e.occupied_by)) a b
            ∙ ap suc c,
      )

  -- `out` is the best of the levels `ls`: with the rest it makes up all of them, it is ordered, each
  -- of its levels has a better price than each of the rest, it has at most `n` prices, and it has
  -- `n` prices if anything is left out.
  pub record IsBest (n : ℕ) (ls out : List Level) : Type 0 where
    pub rest : List Level
    pub split : Perm (out ++ rest) ls
    pub ordered : Ordered Before out
    pub better : All (λ o. All (λ r. place_of side o < place_of side r) rest) out
    pub few : prices out ≤ n
    pub full : (rest ≡ []) ⊎ (prices out ≡ n)

  -- Where the entries run out before the `n`-th, none is dropped.
  drop-full :
      (n : ℕ) (m : BTreeMap Key (List Level)) → (entries (drop n m) ≡ []) ⊎ (length (take n m) ≡ n)
  drop-full zero m = inr refl
  drop-full (suc n) [] = inl refl
  drop-full (suc n) (x ∷ m) = elim (drop-full n m) [ inl e ↦ inl e | inr e ↦ inr (ap suc e) ]

  pub flat_sorted-IsBest :
      (n : ℕ) (m : BTreeMap Key (List Level)) (ls : List Level) {out : List Level}
      → Collected side m ls
      → flat_sorted (take n m) ≡ ok out
      → IsBest n ls out
  flat_sorted-IsBest n m ls {out} c f =
      let whole = take-append-drop n m in
      let each = subst (All (IsEntry side ls)) (sym whole) c.each in
      let (o, o', cross) =
        Ordered-split (KeyBefore side) (take n m) (drop n m)
          (subst (Ordered (KeyBefore side)) (sym whole) c.ordered) in
      let taken = All-left (IsEntry side ls) (take n m) (drop n m) each in
      let left = All-right (IsEntry side ls) (take n m) (drop n m) each in
      let (ordered, count) = flat_sorted-Ordered ls (take n m) taken o f in
      record {
        rest = entries (drop n m);
        split =
            Perm.trans (Perm.append_right (entries (drop n m)) (flat_sorted-perm (take n m) f))
              (rw (← entries-append (take n m) (drop n m), whole) c.contents);
        ordered = ordered;
        better =
            flat_sorted-All (λ x. All (λ r. x < place_of side r) (entries (drop n m))) ls (take n m)
              taken
              (All-imp (λ p h. entries-All (λ y. place p.0 < y) ls (drop n m) left h) (take n m)
                cross)
              f;
        few = omega (arith, count, length-take n m);
        full = elim (drop-full n m) [ inl e ↦ inl e | inr e ↦ inr (count ∙ e) ];
      }

  flat_sorted-total :
      (m : BTreeMap Key (List Level))
      → All HasAmount (entries m)
      → (out : List Level) × (flat_sorted m ≡ ok out)
  unfolding flat_sorted
  flat_sorted-total [] h = ([], refl)
  flat_sorted-total ((k, v) ∷ m) h =
      let (s, e) = sort_by_amount-total v (All-left HasAmount v (entries m) h) in
      let (r, f) = flat_sorted-total m (All-right HasAmount v (entries m) h) in (s ++ r, rw (e, f))

  -- The sorts panic at no levels whose amounts are numbers.
  pub flat_sorted-take-total :
      (n : ℕ) (m : BTreeMap Key (List Level)) (ls : List Level)
      → Collected side m ls
      → All HasAmount ls
      → (out : List Level) × (flat_sorted (take n m) ≡ ok out)
  flat_sorted-take-total n m ls c h =
      let whole = ap entries (take-append-drop n m) in
      let all = All-perm HasAmount (λ a. hlevel) (Perm.symm c.contents) h in
      flat_sorted-total (take n m) (
        All-left HasAmount (entries (take n m)) (entries (drop n m))
          (subst (All HasAmount) (sym whole ∙ entries-append (take n m) (drop n m)) all))
