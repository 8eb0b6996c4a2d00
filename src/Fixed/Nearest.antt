-- ===== src/Fixed/Nearest.antt =====
-- A printed number is the nearest one that has so many places.
use aggbook.Prelude.{
  ℕ, ◌+◌, ◌⊎◌, ◌*◌, ◌/◌, ◌%◌, ◌<◌, ◌≤◌, ◌≡◌, refl, Bool, true, false, ◌&&◌, ◌||◌, ltb, ◌==◌,
  if◌then◌else◌, arith, inl, inr, subst,
}
use native.Mathlib.Nat.{mod-lt, div-add-mod'}
use aggbook.Fixed.{round_div}

-- `q` is the quotient of `num` by `den`, rounded: no number is nearer, and a tie is even.
pub record IsRounded (num den q : ℕ) : Type 0 where
  pub above : 2 * num ≤ (2 * q + 1) * den
  pub below : 2 * q * den ≤ 2 * num + den
  pub even : (2 * num ≡ (2 * q + 1) * den) ⊎ (2 * q * den ≡ 2 * num + den) → q % 2 ≡ 0

-- Products of the quotient, as sums of one product.
expand_above : (q den : ℕ) → (2 * q + 1) * den ≡ 2 * (q * den) + den
expand_above q den = grind arith

expand_below : (q den : ℕ) → 2 * q * den ≡ 2 * (q * den)
expand_below q den = grind arith

next : (q den : ℕ) → (q + 1) * den ≡ q * den + den
next q den = grind arith

rounds_up :
    (q r den : ℕ)
    → r < den
    → (ltb den (2 * r) || ((2 * r == den) && (q % 2 == 1))) ≡ true
    → IsRounded (q * den + r) den (q + 1)
rounds_up q r den h b = record {
  above = omega (arith, expand_above (q + 1) den, next q den);
  below = omega (arith, expand_below (q + 1) den, next q den, half);
  even = λ e. elim e [
    | inl x ↦ absurd (omega (arith, expand_above (q + 1) den, next q den, x))
    | inr x ↦ odd (omega (arith, expand_below (q + 1) den, next q den, x))
  ];
}
  where
    half : den ≤ 2 * r
    half = ground (arith, b)

    odd : 2 * r ≡ den → (q + 1) % 2 ≡ 0
    odd x = ground (arith, b, x)

rounds_down :
    (q r den : ℕ)
    → r < den
    → (ltb den (2 * r) || ((2 * r == den) && (q % 2 == 1))) ≡ false
    → IsRounded (q * den + r) den q
rounds_down q r den h b = record {
  above = omega (arith, expand_above q den, half);
  below = omega (arith, expand_below q den);
  even = λ e. elim e [
    | inl x ↦ even (omega (arith, expand_above q den, x))
    | inr x ↦ absurd (omega (arith, expand_below q den, x))
  ];
}
  where
    half : 2 * r ≤ den
    half = ground (arith, b)

    even : 2 * r ≡ den → q % 2 ≡ 0
    even x = ground (arith, b, x)

pub round_div-IsRounded : (num den : ℕ) → 0 < den → IsRounded num den (round_div num den)
unfolding round_div
round_div-IsRounded num den h =
    let q = num / den in
    let r = num % den in
    subst (λ m. IsRounded m den (round_div num den)) (div-add-mod' num den)
      (rounded (ltb den (2 * r) || ((2 * r == den) && (q % 2 == 1))) refl)
  where
    rounded :
        (b : Bool)
        → (ltb den (2 * (num % den)) || ((2 * (num % den) == den) && (num / den % 2 == 1))) ≡ b
        → IsRounded (num / den * den + num % den) den (if b then num / den + 1 else num / den)
    rounded true e = rounds_up (num / den) (num % den) den (mod-lt num h) e
    rounded false e = rounds_down (num / den) (num % den) den (mod-lt num h) e
