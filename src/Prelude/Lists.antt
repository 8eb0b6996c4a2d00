-- ===== src/Prelude/Lists.antt =====
-- Lists measured and indexed by native numbers, under the library's names.
use Prim.Native.Nat.{ℕ, zero, suc, ◌+◌, ◌<◌, min}
use mathlib.Core.Path.{◌≡◌, refl, ap, sym}
use mathlib.Core.List.{List, [], ◌∷◌, ◌++◌}
use mathlib.Core.Logic.{◌≢◌, ◌⊎◌, inl, inr}
use mathlib.Core.Option.{Option, none, some, some-injective}
use native.Mathlib.Omega.{arith}
use aggbook.Prelude.Tests.{◌==◌, if◌then◌else◌}

module _ {ℓ} {A : Type ℓ} where
  abbrev pub length : List A → ℕ
  length [] = 0
  length (x ∷ xs) = suc (length xs)

  abbrev pub get_elem? : List A → ℕ → Option A
  get_elem? [] i = none
  get_elem? (x ∷ xs) zero = some x
  get_elem? (x ∷ xs) (suc i) = get_elem? xs i

  -- A write out of bounds changes nothing.
  abbrev pub set : List A → ℕ → A → List A
  set [] i v = []
  set (x ∷ xs) zero v = v ∷ xs
  set (x ∷ xs) (suc i) v = x ∷ set xs i v

  abbrev pub take : ℕ → List A → List A
  take zero xs = []
  take (suc n) [] = []
  take (suc n) (x ∷ xs) = x ∷ take n xs

  abbrev pub drop : ℕ → List A → List A
  drop zero xs = xs
  drop (suc n) [] = []
  drop (suc n) (x ∷ xs) = drop n xs

  abbrev pub replicate : ℕ → A → List A
  replicate zero a = []
  replicate (suc n) a = a ∷ replicate n a

  abbrev pub head? : List A → Option A
  head? [] = none
  head? (x ∷ xs) = some x

  pub length-append : (xs ys : List A) → length (xs ++ ys) ≡ length xs + length ys
  length-append [] ys = omega arith
  length-append (x ∷ xs) ys = omega (arith, length-append xs ys)

  pub length-set : (xs : List A) (i : ℕ) (v : A) → length (set xs i v) ≡ length xs
  length-set [] i v = refl
  length-set (x ∷ xs) zero v = refl
  length-set (x ∷ xs) (suc i) v = ap suc (length-set xs i v)

  pub length-replicate : (n : ℕ) (a : A) → length (replicate n a) ≡ n
  length-replicate zero a = refl
  length-replicate (suc n) a = ap suc (length-replicate n a)

  pub length-take : (n : ℕ) (xs : List A) → length (take n xs) ≡ min n (length xs)
  length-take zero xs = omega arith
  length-take (suc n) [] = omega arith
  length-take (suc n) (x ∷ xs) = omega (arith, length-take n xs)

  pub take-append-drop : (n : ℕ) (xs : List A) → take n xs ++ drop n xs ≡ xs
  take-append-drop zero xs = refl
  take-append-drop (suc n) [] = refl
  take-append-drop (suc n) (x ∷ xs) = ap (◌∷◌ x) (take-append-drop n xs)

  -- Writing the cell behind a prefix extends the prefix by the value written.
  pub take-set_next :
      (n : ℕ) (xs : List A) (v : A)
      → n < length xs
      → take (suc n) (set xs n v) ≡ take n xs ++ v ∷ []
  take-set_next zero [] v h = absurd (omega arith)
  take-set_next zero (x ∷ xs) v h = refl
  take-set_next (suc n) [] v h = absurd (omega arith)
  take-set_next (suc n) (x ∷ xs) v h = ap (◌∷◌ x) (take-set_next n xs v (omega arith))

  -- A read after a write, where there was something to read before.
  pub get_elem?-set :
      (xs : List A) (i j : ℕ) (v old : A)
      → get_elem? xs j ≡ some old
      → get_elem? (set xs i v) j ≡ some (if i == j then v else old)
  get_elem?-set [] i j v old e = cc
  get_elem?-set (x ∷ xs) zero zero v old e = refl
  get_elem?-set (x ∷ xs) zero (suc j) v old e = ground arith
  get_elem?-set (x ∷ xs) (suc i) zero v old e = ground arith
  get_elem?-set (x ∷ xs) (suc i) (suc j) v old e = ground (arith, get_elem?-set xs i j v old e)

  pub set-get_elem? : (xs : List A) (i : ℕ) (x : A) → get_elem? xs i ≡ some x → set xs i x ≡ xs
  set-get_elem? [] i x e = refl
  set-get_elem? (y ∷ xs) zero x e = ap (λ z. z ∷ xs) (sym (some-injective _ _ e))
  set-get_elem? (y ∷ xs) (suc i) x e = ap (◌∷◌ y) (set-get_elem? xs i x e)

  pub set-set : (xs : List A) (i : ℕ) (v w : A) → set (set xs i v) i w ≡ set xs i w
  set-set [] i v w = refl
  set-set (x ∷ xs) zero v w = refl
  set-set (x ∷ xs) (suc i) v w = ap (◌∷◌ x) (set-set xs i v w)

  pub get_elem?-set_self :
      (xs : List A) (i : ℕ) (v old : A)
      → get_elem? xs i ≡ some old
      → get_elem? (set xs i v) i ≡ some v
  get_elem?-set_self [] i v old e = absurd (cc e)
  get_elem?-set_self (x ∷ xs) zero v old e = refl
  get_elem?-set_self (x ∷ xs) (suc i) v old e = get_elem?-set_self xs i v old e

  -- A write elsewhere is not read.
  pub get_elem?-set_other :
      (xs : List A) (i j : ℕ) (v : A) → i ≢ j → get_elem? (set xs i v) j ≡ get_elem? xs j
  get_elem?-set_other [] i j v h = refl
  get_elem?-set_other (x ∷ xs) zero zero v h = absurd (h refl)
  get_elem?-set_other (x ∷ xs) zero (suc j) v h = refl
  get_elem?-set_other (x ∷ xs) (suc i) zero v h = refl
  get_elem?-set_other (x ∷ xs) (suc i) (suc j) v h =
      get_elem?-set_other xs i j v (λ e. h (ap suc e))

  -- What was read after a write.
  pub get_elem?-set_inv :
      (xs : List A) (i j : ℕ) (v : A) {b : A}
      → get_elem? (set xs i v) j ≡ some b
      → (a : A) × (get_elem? xs j ≡ some a) × (b ≡ (if i == j then v else a))
  get_elem?-set_inv [] i j v e = cc
  get_elem?-set_inv (x ∷ xs) zero zero v e = (x, refl, ground arith)
  get_elem?-set_inv (x ∷ xs) zero (suc j) v e = (_, e, ground arith)
  get_elem?-set_inv (x ∷ xs) (suc i) zero v e = (x, refl, ground arith)
  get_elem?-set_inv (x ∷ xs) (suc i) (suc j) v e =
      let (a, h, k) = get_elem?-set_inv xs i j v e in (a, h, ground arith)

  -- What stands in a list that has grown by one.
  pub get_elem?-concat_inv :
      (xs : List A) (v : A) (j : ℕ) {b : A}
      → get_elem? (xs ++ v ∷ []) j ≡ some b
      → (get_elem? xs j ≡ some b) ⊎ ((j ≡ length xs) × (b ≡ v))
  get_elem?-concat_inv [] v zero e = inr (refl, ground arith)
  get_elem?-concat_inv [] v (suc j) e = cc
  get_elem?-concat_inv (x ∷ xs) v zero e = inl e
  get_elem?-concat_inv (x ∷ xs) v (suc j) e = elim (get_elem?-concat_inv xs v j e) [
    | inl h ↦ inl h
    | inr (p, q) ↦ inr (ap suc p, q)
  ]

  pub get_elem?-append :
      (xs ys : List A) (j : ℕ) {a : A} → get_elem? xs j ≡ some a → get_elem? (xs ++ ys) j ≡ some a
  get_elem?-append [] ys j e = cc
  get_elem?-append (x ∷ xs) ys zero e = e
  get_elem?-append (x ∷ xs) ys (suc j) e = get_elem?-append xs ys j e

  pub get_elem?-concat_last : (xs : List A) (v : A) → get_elem? (xs ++ v ∷ []) (length xs) ≡ some v
  get_elem?-concat_last [] v = refl
  get_elem?-concat_last (x ∷ xs) v = get_elem?-concat_last xs v

  pub get_elem?-lt : (xs : List A) (j : ℕ) {a : A} → get_elem? xs j ≡ some a → j < length xs
  get_elem?-lt [] j e = cc
  get_elem?-lt (x ∷ xs) zero e = omega arith
  get_elem?-lt (x ∷ xs) (suc j) e = omega (arith, get_elem?-lt xs j e)

  -- Nothing is read past the end.
  pub get_elem?-none :
      (xs : List A) (i j : ℕ) {a : A} → get_elem? xs i ≡ none → get_elem? xs j ≡ some a → j < i
  get_elem?-none [] i j h e = cc
  get_elem?-none (x ∷ xs) zero j h e = cc
  get_elem?-none (x ∷ xs) (suc i) zero h e = omega arith
  get_elem?-none (x ∷ xs) (suc i) (suc j) h e = omega (arith, get_elem?-none xs i j h e)
