-- ===== src/Prelude/Predicates.antt =====
-- Predicates on lists by recursion: every element, and every pair in order.
use Prim.Native.Nat.{ℕ, zero, suc}
use mathlib.Core.List.{List, [], ◌∷◌, ◌++◌}
use mathlib.Core.Option.{some, some-injective}
use mathlib.Core.Path.{◌≡◌, subst}
use aggbook.Prelude.Lists.{get_elem?, set, replicate}

module _ {ℓ} {A : Type ℓ} where
  abbrev pub All {κ} : (A → Type κ) → List A → Type κ
  All P [] = Unit
  All P (x ∷ xs) = P x × All P xs

  -- Every earlier element stands in the relation to every later one.
  abbrev pub Ordered {κ} : (A → A → Type κ) → List A → Type κ
  Ordered R [] = Unit
  Ordered R (x ∷ xs) = All (R x) xs × Ordered R xs

  pub All-append {κ} : (P : A → Type κ) (xs ys : List A) → All P xs → All P ys → All P (xs ++ ys)
  All-append P [] ys _ q = q
  All-append P (x ∷ xs) ys (p, ps) q = (p, All-append P xs ys ps q)

  pub All-left {κ} : (P : A → Type κ) (xs ys : List A) → All P (xs ++ ys) → All P xs
  All-left P [] ys _ = tt
  All-left P (x ∷ xs) ys (p, ps) = (p, All-left P xs ys ps)

  pub All-right {κ} : (P : A → Type κ) (xs ys : List A) → All P (xs ++ ys) → All P ys
  All-right P [] ys q = q
  All-right P (x ∷ xs) ys (_, ps) = All-right P xs ys ps

  pub All-imp {κ μ} :
      {P : A → Type κ} {Q : A → Type μ}
      → ((a : A) → P a → Q a)
      → (xs : List A) → All P xs
      → All Q xs
  All-imp f [] _ = tt
  All-imp f (x ∷ xs) (p, ps) = (f x p, All-imp f xs ps)

  pub Ordered-append {κ} :
      (R : A → A → Type κ) (xs ys : List A)
      → Ordered R xs
      → Ordered R ys
      → All (λ x. All (R x) ys) xs
      → Ordered R (xs ++ ys)
  Ordered-append R [] ys _ q _ = q
  Ordered-append R (x ∷ xs) ys (h, p) q (c, cs) =
      (All-append (R x) xs ys h c, Ordered-append R xs ys p q cs)

  pub Ordered-split {κ} :
      (R : A → A → Type κ) (xs ys : List A)
      → Ordered R (xs ++ ys)
      → Ordered R xs × Ordered R ys × All (λ x. All (R x) ys) xs
  Ordered-split R [] ys o = (tt, o, tt)
  Ordered-split R (x ∷ xs) ys (h, o) =
      let (p, q, c) = Ordered-split R xs ys o in
      ((All-left (R x) xs ys h, p), q, (All-right (R x) xs ys h, c))

  pub All-zip {κ μ} :
      (P : A → Type κ) (Q : A → Type μ) (xs : List A)
      → All P xs
      → All Q xs
      → All (λ x. P x × Q x) xs
  All-zip P Q [] _ _ = tt
  All-zip P Q (x ∷ xs) (p, ps) (q, qs) = ((p, q), All-zip P Q xs ps qs)

  -- A value put between two parts of an ordered list keeps it ordered, if it fits both parts.
  pub Ordered-insert {κ} :
      (R : A → A → Type κ) (xs : List A) (z : A) (ys : List A)
      → Ordered R (xs ++ ys)
      → All (λ x. R x z) xs
      → All (R z) ys
      → Ordered R (xs ++ z ∷ ys)
  Ordered-insert R xs z ys o h k =
      let (p, q, c) = Ordered-split R xs ys o in
      Ordered-append R xs (z ∷ ys) p (k, q)
        (All-imp (λ a m. m) xs (All-zip (λ x. R x z) (λ x. All (R x) ys) xs h c))

  -- A relation may be weakened by what holds of every element.
  pub Ordered-imp {κ μ ν} :
      (P : A → Type κ) (R : A → A → Type μ) (S : A → A → Type ν)
      → ((a b : A) → P a → P b → R a b → S a b)
      → (xs : List A) → All P xs
      → Ordered R xs
      → Ordered S xs
  Ordered-imp P R S f [] _ _ = tt
  Ordered-imp P R S f (x ∷ xs) (p, ps) (h, o) = (
    All-imp (λ y (c : P y × R x y). f x y p c.0 c.1) xs (All-zip P (R x) xs ps h),
    Ordered-imp P R S f xs ps o,
  )

  -- One element is replaced, or looked up.
  pub All-set {κ} :
      (P : A → Type κ) (xs : List A) (i : ℕ) (v : A) → All P xs → P v → All P (set xs i v)
  All-set P [] i v _ _ = tt
  All-set P (x ∷ xs) zero v (p, ps) q = (q, ps)
  All-set P (x ∷ xs) (suc i) v (p, ps) q = (p, All-set P xs i v ps q)

  pub All-get_elem? {κ} :
      (P : A → Type κ) (xs : List A) (i : ℕ) {x : A} → get_elem? xs i ≡ some x → All P xs → P x
  All-get_elem? P [] i e _ = absurd (cc e)
  All-get_elem? P (x ∷ xs) zero e (p, ps) = subst P (some-injective _ _ e) p
  All-get_elem? P (x ∷ xs) (suc i) e (p, ps) = All-get_elem? P xs i e ps

  pub All-replicate {κ} : (P : A → Type κ) (k : ℕ) (x : A) → P x → All P (replicate k x)
  All-replicate P zero x p = tt
  All-replicate P (suc k) x p = (p, All-replicate P k x p)
