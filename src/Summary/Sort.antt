-- ===== src/Summary/Sort.antt =====
-- Sorting the levels of one price: the order of amounts, and nothing lost.
use mathlib.Core.List.{perm_middle, append-nil}
use mathlib.Core.List.Perm
use aggbook.Prelude.{
  ◌≤◌, ◌≡◌, refl, ap, sym, subst, Option, some, none, Ordering, List, [], ◌∷◌, ◌++◌, Perm, Outcome,
  ok, ◌>>=◌, >>=-eq-ok, ok-injective, unwrap, All, All-imp, All-left, All-right, All-append,
  Ordered, Ordered-insert, Ordered-split, arith, compare_cases, false, inl, inr,
}
use aggbook.Float.{is_nan, rank, partial_cmp}
use aggbook.Float.Order.{partial_cmp-number}
use aggbook.Summary.{Level, insert_by_amount, sort_into, sort_by_amount}

-- The greater amount stands before the smaller one.
abbrev pub AmountBefore : Level → Level → Type 0
AmountBefore a b = rank b.amount ≤ rank a.amount

-- Where a level goes: behind the levels of no less amount, before the first of a smaller one.
data Inserted (x : Level) (ys zs : List Level) : Type 0 where
  inserted :
      (l r : List Level)
      → ys ≡ l ++ r
      → zs ≡ l ++ x ∷ r
      → All (λ y. AmountBefore y x) l
      → (Ordered AmountBefore r → All (AmountBefore x) r)
      → Inserted x ys zs

after_head :
    (x y : Level) (ys : List Level)
    → AmountBefore x y
    → Ordered AmountBefore (y ∷ ys)
    → All (AmountBefore x) (y ∷ ys)
after_head x y ys h (above, _) = (h, All-imp (λ z k. omega arith) ys above)

push_front :
    (x y : Level) (ys zs : List Level)
    → AmountBefore y x
    → Inserted x ys zs
    → Inserted x (y ∷ ys) (y ∷ zs)
push_front x y ys zs h (inserted l r e f a b) =
    inserted (y ∷ l) r (ap (◌∷◌ y) e) (ap (◌∷◌ y) f) (h, a) b

-- One comparison: the rest of the insertion, `m`, counts unless the amount is greater.
insert_rest :
    (x y : Level) (ys : List Level) (m : Outcome (List Level)) {zs : List Level}
    → ((r : List Level) → m ≡ ok r → Inserted x ys r)
    → AmountBefore y x
    → (m >>= λ r. ok (y ∷ r)) ≡ ok zs
    → Inserted x (y ∷ ys) zs
insert_rest x y ys m ih h e =
    let (r, p, q) = >>=-eq-ok m (λ r. ok (y ∷ r)) e in
    subst (Inserted x (y ∷ ys)) (ok-injective q) (push_front x y ys r h (ih r p))

insert_by_amount-Inserted :
    (x : Level) (ys : List Level) {zs : List Level}
    → insert_by_amount x ys ≡ ok zs
    → Inserted x ys zs
unfolding insert_by_amount
insert_by_amount-Inserted x [] e = inserted [] [] refl (sym (ok-injective e)) tt (λ _. tt)
insert_by_amount-Inserted x (y ∷ ys) {zs} e =
    go (partial_cmp y.amount x.amount) refl (λ r h. insert_by_amount-Inserted x ys h) e
  where
    go :
        (o : Option Ordering)
        → partial_cmp y.amount x.amount ≡ o
        → ((r : List Level) → insert_by_amount x ys ≡ ok r → Inserted x ys r)
        → (unwrap o >>= λ c. elim c [
          | Ordering.lt ↦ ok (x ∷ y ∷ ys)
          | _ ↦ (do r ← insert_by_amount x ys; ok (y ∷ r))
        ])
          ≡ ok zs
        → Inserted x (y ∷ ys) zs
    go none c ih h = cc
    go (some Ordering.lt) c ih h =
        inserted [] (y ∷ ys) refl (sym (ok-injective h)) tt (after_head x y ys (ground (arith, c)))
    go (some Ordering.eq) c ih h = insert_rest x y ys _ ih (ground (arith, c)) h
    go (some Ordering.gt) c ih h = insert_rest x y ys _ ih (ground (arith, c)) h

Inserted-All :
    (P : Level → Type 0) (x : Level) (ys zs : List Level)
    → Inserted x ys zs
    → P x
    → All P ys
    → All P zs
Inserted-All P x ys zs (inserted l r e f _ _) p q =
    let q' = subst (All P) e q in
    subst (All P) (sym f) (All-append P l (x ∷ r) (All-left P l r q') (p, All-right P l r q'))

Inserted-Ordered :
    (x : Level) (ys zs : List Level)
    → Inserted x ys zs
    → Ordered AmountBefore ys
    → Ordered AmountBefore zs
Inserted-Ordered x ys zs (inserted l r e f a b) o =
    let o' = subst (Ordered AmountBefore) e o in
    subst (Ordered AmountBefore) (sym f)
      (Ordered-insert AmountBefore l x r o' a (b (Ordered-split AmountBefore l r o').1))

Inserted-perm : (x : Level) (ys zs : List Level) → Inserted x ys zs → Perm zs (x ∷ ys)
Inserted-perm x ys zs (inserted l r e f _ _) = rw (e, f) (perm_middle l r)

sort_into-perm :
    (acc xs : List Level) {out : List Level} → sort_into acc xs ≡ ok out → Perm out (acc ++ xs)
unfolding sort_into
sort_into-perm acc [] e = rw (append-nil acc, ok-injective e) (Perm.refl _)
sort_into-perm acc (x ∷ xs) e =
    let (next, p, q) = >>=-eq-ok (insert_by_amount x acc) (λ s. sort_into s xs) e in
    let here = Inserted-perm x acc next (insert_by_amount-Inserted x acc p) in
    Perm.trans (sort_into-perm next xs q)
      (Perm.trans (Perm.append_right xs here) (Perm.symm (perm_middle acc xs)))

sort_into-Ordered :
    (acc xs : List Level) {out : List Level}
    → Ordered AmountBefore acc
    → sort_into acc xs ≡ ok out
    → Ordered AmountBefore out
unfolding sort_into
sort_into-Ordered acc [] o e = subst (Ordered AmountBefore) (ok-injective e) o
sort_into-Ordered acc (x ∷ xs) o e =
    let (next, p, q) = >>=-eq-ok (insert_by_amount x acc) (λ s. sort_into s xs) e in
    sort_into-Ordered next xs (Inserted-Ordered x acc next (insert_by_amount-Inserted x acc p) o) q

sort_into-All :
    (P : Level → Type 0) (acc xs : List Level) {out : List Level}
    → All P acc
    → All P xs
    → sort_into acc xs ≡ ok out
    → All P out
unfolding sort_into
sort_into-All P acc [] a b e = subst (All P) (ok-injective e) a
sort_into-All P acc (x ∷ xs) a (b, bs) e =
    let (next, p, q) = >>=-eq-ok (insert_by_amount x acc) (λ s. sort_into s xs) e in
    sort_into-All P next xs (Inserted-All P x acc next (insert_by_amount-Inserted x acc p) b a) bs q

-- What the sort of one price's levels gives: the same levels, the greatest amount first.
pub sort_by_amount_lem :
    (v : List Level) {out : List Level}
    → sort_by_amount v ≡ ok out
    → Perm out v × Ordered AmountBefore out
unfolding sort_by_amount
sort_by_amount_lem v e = (sort_into-perm [] v e, sort_into-Ordered [] v tt e)

pub sort_by_amount-All :
    (P : Level → Type 0) (v : List Level) {out : List Level}
    → All P v
    → sort_by_amount v ≡ ok out
    → All P out
unfolding sort_by_amount
sort_by_amount-All P v a e = sort_into-All P [] v tt a e

abbrev pub HasAmount : Level → Type 0
HasAmount l = is_nan l.amount ≡ false

insert_by_amount-total :
    (x : Level) (ys : List Level)
    → HasAmount x
    → All HasAmount ys
    → (zs : List Level) × (insert_by_amount x ys ≡ ok zs)
unfolding insert_by_amount
insert_by_amount-total x [] h hs = (x ∷ [], refl)
insert_by_amount-total x (y ∷ ys) h (k, hs) =
    let (zs, e) = insert_by_amount-total x ys h hs in
    elim (compare_cases (rank y.amount) (rank x.amount)) [
      | inl (_, c) ↦ (x ∷ y ∷ ys, rw (partial_cmp-number y.amount x.amount k h, c))
      | inr (inl (_, c)) ↦ (y ∷ zs, rw (partial_cmp-number y.amount x.amount k h, c, e))
      | inr (inr (_, c)) ↦ (y ∷ zs, rw (partial_cmp-number y.amount x.amount k h, c, e))
    ]

sort_into-total :
    (acc xs : List Level)
    → All HasAmount acc
    → All HasAmount xs
    → (out : List Level) × (sort_into acc xs ≡ ok out)
unfolding sort_into
sort_into-total acc [] a b = (acc, refl)
sort_into-total acc (x ∷ xs) a (b, bs) =
    let (next, e) = insert_by_amount-total x acc b a in
    let a' = Inserted-All HasAmount x acc next (insert_by_amount-Inserted x acc e) b a in
    let (out, f) = sort_into-total next xs a' bs in (out, rw e f)

-- The sort panics at no list whose amounts are numbers.
pub sort_by_amount-total :
    (v : List Level) → All HasAmount v → (out : List Level) × (sort_by_amount v ≡ ok out)
unfolding sort_by_amount
sort_by_amount-total v h = sort_into-total [] v tt h
