-- ===== src/HashMap/Laws.antt =====
-- A hash map at its keys: what an insertion and a removal do, and what a list of pairs collects to.
use aggbook.Prelude.{
  ◌≡◌, refl, sym, subst, ap, ◌∙◌, ◌↔◌, Bool, true, false, Bool-cases, inl, inr, Option, some, none,
  List, [], ◌∷◌, All, Ordered, if◌then◌else◌,
}
use aggbook.HashMap.{HashMap, insert, lookup, remove, insert_all}

-- Two keys are one exactly where the test says so.
abbrev pub IsEq : {K : Type 0} → (K → K → Bool) → Type 0
IsEq {K} same = (a b : K) → (same a b ≡ true) ↔ (a ≡ b)

module _ {K : Type 0} (same : K → K → Bool) (eq : IsEq same) where
  same_trans : (a b c : K) → same a b ≡ true → same a c ≡ same b c
  same_trans a b c h = ap (λ k. same k c) ((eq a b).0 h)

  pub same-sym : (a b : K) → same a b ≡ same b a
  same-sym a b = elim (Bool-cases (same a b)) [
    | inl h ↦ h ∙ sym ((eq b a).1 (sym ((eq a b).0 h)))
    | inr h ↦ elim (Bool-cases (same b a)) [
      | inl k ↦ (eq a b).1 (sym ((eq b a).0 k)) ∙ sym k
      | inr k ↦ h ∙ sym k
    ]
  ]

  -- A key that is the first of two different ones is not the second.
  same-other : (i j k : K) → same i j ≡ true → same i k ≡ false → same k j ≡ false
  same-other i j k h d = same-sym k j ∙ sym (same_trans i j k h) ∙ d

module _ {K V : Type 0} (same : K → K → Bool) where
  -- The keys are different from each other.
  abbrev pub IsDistinct : HashMap K V → Type 0
  IsDistinct m = Ordered (λ (p q : K × V). same p.0 q.0 ≡ false) m

  -- The value of the last pair with a key, or else `old`.
  abbrev pub last : K → List (K × V) → Option V → Option V
  last k [] old = old
  last k ((j, v) ∷ ps) old = last k ps (if same j k then some v else old)

module _ {K V : Type 0} (same : K → K → Bool) (eq : IsEq same) where
  pub lookup-insert :
      (k j : K) (v : V) (m : HashMap K V)
      → lookup same j (insert same k v m) ≡ (if same k j then some v else lookup same j m)
  unfolding lookup insert
  lookup-insert k j v [] = refl
  lookup-insert k j v ((i, w) ∷ m) = elim (Bool-cases (same i k)) [
    | inl h ↦
        rw (h, same_trans same eq i k j h)
          (elim (Bool-cases (same k j)) [ inl d ↦ rw d | inr d ↦ rw d ])
    | inr h ↦ elim (Bool-cases (same i j)) [
      | inl d ↦ rw (h, d, same-other same eq i j k d h)
      | inr d ↦ rw (h, d) (lookup-insert k j v m)
    ]
  ]

  insert-All :
      (i k : K) (v : V) (m : HashMap K V)
      → same i k ≡ false
      → All (λ (q : K × V). same i q.0 ≡ false) m
      → All (λ (q : K × V). same i q.0 ≡ false) (insert same k v m)
  unfolding insert
  insert-All i k v [] h a = (h, tt)
  insert-All i k v ((j, w) ∷ m) h (a, rest) = elim (Bool-cases (same j k)) [
    | inl d ↦ rw d (a, rest)
    | inr d ↦ rw d (a, insert-All i k v m h rest)
  ]

  pub insert-IsDistinct :
      (k : K) (v : V) (m : HashMap K V) → IsDistinct same m → IsDistinct same (insert same k v m)
  unfolding insert
  insert-IsDistinct k v [] d = (tt, tt)
  insert-IsDistinct k v ((j, w) ∷ m) (a, d) = elim (Bool-cases (same j k)) [
    | inl e ↦ rw e (a, d)
    | inr e ↦ rw e (insert-All j k v m e a, insert-IsDistinct k v m d)
  ]

  remove-All : (P : K × V → Type 0) (k : K) (m : HashMap K V) → All P m → All P (remove same k m)
  unfolding remove
  remove-All P k [] a = tt
  remove-All P k ((j, w) ∷ m) (a, rest) = elim (Bool-cases (same j k)) [
    | inl e ↦ rw e rest
    | inr e ↦ rw e (a, remove-All P k m rest)
  ]

  pub remove-IsDistinct :
      (k : K) (m : HashMap K V) → IsDistinct same m → IsDistinct same (remove same k m)
  unfolding remove
  remove-IsDistinct k [] d = tt
  remove-IsDistinct k ((j, w) ∷ m) (a, d) = elim (Bool-cases (same j k)) [
    | inl e ↦ rw e d
    | inr e ↦ rw e (remove-All _ k m a, remove-IsDistinct k m d)
  ]

  lookup-none :
      (k : K) (m : HashMap K V) → All (λ (q : K × V). same k q.0 ≡ false) m → lookup same k m ≡ none
  unfolding lookup
  lookup-none k [] a = refl
  lookup-none k ((j, w) ∷ m) (a, rest) = rw (same-sym same eq j k, a) (lookup-none k m rest)

  pub lookup-remove :
      (k j : K) (m : HashMap K V)
      → IsDistinct same m
      → lookup same j (remove same k m) ≡ (if same k j then none else lookup same j m)
  unfolding lookup remove
  lookup-remove k j [] d = elim (Bool-cases (same k j)) [ inl e ↦ rw e | inr e ↦ rw e ]
  lookup-remove k j ((i, w) ∷ m) (a, d) = elim (Bool-cases (same i k)) [
    | inl h ↦
        rw (h, same_trans same eq i k j h)
          (elim (Bool-cases (same k j)) [
            | inl e ↦ rw e (
                lookup-none j m (
                  subst (λ x. All (λ (q : K × V). same x q.0 ≡ false) m)
                    ((eq i k).0 h ∙ (eq k j).0 e) a))
            | inr e ↦ rw e
          ])
    | inr h ↦ elim (Bool-cases (same i j)) [
      | inl e ↦ rw (h, e, same-other same eq i j k e h)
      | inr e ↦ rw (h, e) (lookup-remove k j m d)
    ]
  ]

  pub lookup-insert_hit :
      (k j : K) (v : V) (m : HashMap K V)
      → same k j ≡ true
      → lookup same j (insert same k v m) ≡ some v
  lookup-insert_hit k j v m h = rw (lookup-insert k j v m, h)

  pub lookup-insert_miss :
      (k j : K) (v : V) (m : HashMap K V)
      → same k j ≡ false
      → lookup same j (insert same k v m) ≡ lookup same j m
  lookup-insert_miss k j v m h = rw (lookup-insert k j v m, h)

  pub lookup-remove_hit :
      (k j : K) (m : HashMap K V)
      → IsDistinct same m
      → same k j ≡ true
      → lookup same j (remove same k m) ≡ none
  lookup-remove_hit k j m d h = rw (lookup-remove k j m d, h)

  pub lookup-remove_miss :
      (k j : K) (m : HashMap K V)
      → IsDistinct same m
      → same k j ≡ false
      → lookup same j (remove same k m) ≡ lookup same j m
  lookup-remove_miss k j m d h = rw (lookup-remove k j m d, h)

  pub lookup-insert_all :
      (k : K) (ps : List (K × V)) (m : HashMap K V)
      → lookup same k (insert_all same ps m) ≡ last same k ps (lookup same k m)
  unfolding insert_all
  lookup-insert_all k [] m = refl
  lookup-insert_all k ((j, v) ∷ ps) m =
      lookup-insert_all k ps (insert same j v m) ∙ ap (last same k ps) (lookup-insert j k v m)

  pub insert_all-IsDistinct :
      (ps : List (K × V)) (m : HashMap K V)
      → IsDistinct same m
      → IsDistinct same (insert_all same ps m)
  unfolding insert_all
  insert_all-IsDistinct [] m d = d
  insert_all-IsDistinct ((j, v) ∷ ps) m d =
      insert_all-IsDistinct ps (insert same j v m) (insert-IsDistinct j v m d)
