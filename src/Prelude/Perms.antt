-- ===== src/Prelude/Perms.antt =====
-- Rearranged lists, measured by native numbers.
use Prim.Native.Nat.{suc}
use mathlib.Core.Path.{◌≡◌, refl, ap, ◌∙◌, subst}
use mathlib.Core.Logic.{∥∥₁_elim}
use mathlib.Core.List.{List, [], ◌∷◌, Perm, Permᴰ}
use mathlib.Core.HLevel.{×_prop}
use native.Mathlib.Nat.{ℕ_set}
use aggbook.Prelude.Lists.{length}
use aggbook.Prelude.Predicates.{All}

module _ {ℓ} {A : Type ℓ} where
  length-permᴰ : {xs ys : List A} → Permᴰ xs ys → length xs ≡ length ys
  length-permᴰ Permᴰ.nil = refl
  length-permᴰ (Permᴰ.cons e p) = ap suc (length-permᴰ p)
  length-permᴰ (Permᴰ.swap e f) = refl
  length-permᴰ (Permᴰ.trans p q) = length-permᴰ p ∙ length-permᴰ q

  pub length-perm : {xs ys : List A} → Perm xs ys → length xs ≡ length ys
  length-perm p = ∥∥₁_elim p (ℕ_set _ _) length-permᴰ

  All-prop {κ} : (P : A → Type κ) → ((a : A) → IsProp (P a)) → (xs : List A) → IsProp (All P xs)
  All-prop P h [] = hlevel
  All-prop P h (x ∷ xs) = ×_prop (h x) (All-prop P h xs)

  All-permᴰ {κ} : (P : A → Type κ) {xs ys : List A} → Permᴰ xs ys → All P xs → All P ys
  All-permᴰ P Permᴰ.nil _ = tt
  All-permᴰ P (Permᴰ.cons e p) (a, as') = (subst P e a, All-permᴰ P p as')
  All-permᴰ P (Permᴰ.swap e f) (a, bs) = (subst P f bs.0, (subst P e a, bs.1))
  All-permᴰ P (Permᴰ.trans p q) a = All-permᴰ P q (All-permᴰ P p a)

  -- What holds of every element holds of every element of a rearranged list.
  pub All-perm {κ} :
      (P : A → Type κ)
      → ((a : A) → IsProp (P a))
      → {xs ys : List A} → Perm xs ys
      → All P xs
      → All P ys
  All-perm P h {ys = ys} p a = ∥∥₁_elim p (All-prop P h ys) (λ d. All-permᴰ P d a)
