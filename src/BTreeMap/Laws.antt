-- ===== src/BTreeMap/Laws.antt =====
-- An entry keeps the keys in order, and changes the value at its own key alone.
use aggbook.Prelude.{
  ℕ, ◌<◌, ◌≡◌, refl, ap, ◌∙◌, inl, inr, compare, compare_cases, Ordering, ◌∷◌, [], ◌++◌, Outcome,
  ok, ◌>>=◌, >>=-map_map, All, All-imp, Ordered, arith,
}
use aggbook.BTreeMap.{BTreeMap, entry_or_default}

-- A key's `cmp` goes by a number, its place, at the keys that are good.
module _ {K V : Type 0} (cmp : K → K → Outcome Ordering) (place : K → ℕ) (IsGood : K → Type 0)
    (law : (a b : K) → IsGood a → IsGood b → cmp a b ≡ ok (compare (place a) (place b))) where
  abbrev pub IsOrdered : BTreeMap K V → Type 0
  IsOrdered m = Ordered (λ p q. place p.0 < place q.0) m × All (λ p. IsGood p.0) m

  -- Where the entry of a key is: between the smaller and the greater keys.
  pub data Entry (k : K) (d : V) (f : V → Outcome V) (m : BTreeMap K V) : Type 0 where
    vacant :
        (l r : BTreeMap K V)
        → m ≡ l ++ r
        → All (λ p. place p.0 < place k) l
        → All (λ p. place k < place p.0) r
        → entry_or_default cmp k d f m ≡ (f d >>= λ v. ok (l ++ (k, v) ∷ r))
        → Entry k d f m
    occupied :
        (l r : BTreeMap K V) (j : K) (w : V)
        → place j ≡ place k
        → m ≡ l ++ (j, w) ∷ r
        → All (λ p. place p.0 < place k) l
        → All (λ p. place k < place p.0) r
        → entry_or_default cmp k d f m ≡ (f w >>= λ v. ok (l ++ (j, v) ∷ r))
        → Entry k d f m

  skip :
      (k : K) (d : V) (f : V → Outcome V) (j : K) (w : V) (m : BTreeMap K V)
      → place j < place k
      → entry_or_default cmp k d f ((j, w) ∷ m)
        ≡ (entry_or_default cmp k d f m >>= λ m'. ok ((j, w) ∷ m'))
      → Entry k d f m
      → Entry k d f ((j, w) ∷ m)
  skip k d f j w m h s (vacant l r e a b c) =
      vacant ((j, w) ∷ l) r (ap (◌∷◌ (j, w)) e) (h, a) b
        (s ∙ ap (λ x. x >>= λ m'. ok ((j, w) ∷ m')) c ∙ >>=-map_map (f d) _ _)
  skip k d f j w m h s (occupied l r i v p e a b c) =
      occupied ((j, w) ∷ l) r i v p (ap (◌∷◌ (j, w)) e) (h, a) b
        (s ∙ ap (λ x. x >>= λ m'. ok ((j, w) ∷ m')) c ∙ >>=-map_map (f v) _ _)

  pub entry_or_default-Entry :
      (k : K) (d : V) (f : V → Outcome V) (m : BTreeMap K V)
      → IsGood k
      → IsOrdered m
      → Entry k d f m
  unfolding entry_or_default
  entry_or_default-Entry k d f [] g o = vacant [] [] refl tt tt refl
  entry_or_default-Entry k d f ((j, w) ∷ m) g ((above, o), (gj, gs)) =
      elim (compare_cases (place k) (place j)) [
        | inl (h, e) ↦
            vacant [] ((j, w) ∷ m) refl tt (h, All-imp (λ p q. omega arith) m above)
              (rw (law k j g gj, e))
        | inr (inl (h, e)) ↦
            occupied [] m j w h refl tt (All-imp (λ p q. omega arith) m above)
              (rw (law k j g gj, e))
        | inr (inr (h, e)) ↦
            skip k d f j w m h (rw (law k j g gj, e)) (entry_or_default-Entry k d f m g (o, gs))
      ]
