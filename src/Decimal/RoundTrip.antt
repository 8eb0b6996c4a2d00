-- ===== src/Decimal/RoundTrip.antt =====
-- A number that is printed is read again.
use aggbook.Prelude.{
  ℕ, zero, suc, ◌+◌, ◌*◌, ◌/◌, ◌%◌, ◌<◌, ◌≤◌, ◌≡◌, refl, sym, ap, ap₂, ◌⊎◌, ◌^◌, ◌∙◌, Bool, true,
  false, ◌&&◌, Option, none, some, List, [], ◌∷◌, ◌++◌, length, ltb, ◌==◌, inl, inr, arith,
  length-append,
}
use mathlib.Core.List.{append_assoc}
use native.Mathlib.Nat.{pow-suc}
use aggbook.Decimal.{
  digits_within, decimal, to_digit, read_digits, within, starts_with_zero, checked, read_number,
}

-- The text goes on with no digit.
abbrev pub EndsDigits : List ℕ → Type 0
EndsDigits [] = Unit
EndsDigits (c ∷ cs) = to_digit 10 c ≡ none

pub read_digits-one :
    (d value count : ℕ) (cs : List ℕ)
    → d < 10
    → read_digits 10 ((b'0' + d) ∷ cs) value count ≡ read_digits 10 cs (value * 10 + d) (count + 1)
unfolding read_digits
read_digits-one d value count cs h = ground (arith, h)

-- The digits of a number below ten, and of any other number.
digits_within-small : (fuel n : ℕ) → n < 10 → digits_within (suc fuel) n ≡ (b'0' + n) ∷ []
unfolding digits_within
digits_within-small fuel n h = ground (arith, h)

digits_within-large :
    (fuel n : ℕ)
    → 10 ≤ n
    → digits_within (suc fuel) n ≡ digits_within fuel (n / 10) ++ (b'0' + n % 10) ∷ []
unfolding digits_within
digits_within-large fuel n h = ground (arith, h)

small_or_large : (n : ℕ) → (n < 10) ⊎ (10 ≤ n)
small_or_large n = ground arith

-- What follows the digits of a tenth.
append-digit :
    (fuel n : ℕ) (cs : List ℕ)
    → 10 ≤ n
    → digits_within (suc fuel) n ++ cs ≡ digits_within fuel (n / 10) ++ (b'0' + n % 10) ∷ cs
append-digit fuel n cs h =
    ap (λ xs. xs ++ cs) (digits_within-large fuel n h)
    ∙ append_assoc (digits_within fuel (n / 10)) ((b'0' + n % 10) ∷ []) cs

-- Reading the digits of a number, after none.
read_digits-digits_within :
    (fuel n : ℕ) (cs : List ℕ)
    → n < fuel
    → read_digits 10 (digits_within fuel n ++ cs) 0 0
      ≡ read_digits 10 cs n (length (digits_within fuel n))
read_digits-digits_within zero n cs h = absurd (omega arith)
read_digits-digits_within (suc fuel) n cs h = elim (small_or_large n) [
  | inl small ↦
      ap (λ xs. read_digits 10 (xs ++ cs) 0 0) (digits_within-small fuel n small)
      ∙ read_digits-one n 0 0 cs small
      ∙ ap₂ (λ v k. read_digits 10 cs v k) (omega arith)
          (sym (ap length (digits_within-small fuel n small)))
  | inr large ↦
      ap (λ xs. read_digits 10 xs 0 0) (append-digit fuel n cs large)
      ∙ read_digits-digits_within fuel (n / 10) ((b'0' + n % 10) ∷ cs) (omega arith)
      ∙ read_digits-one (n % 10) (n / 10) (length (digits_within fuel (n / 10))) cs (omega arith)
      ∙ ap₂ (λ v k. read_digits 10 cs v k) (omega arith)
          (sym (
            ap length (digits_within-large fuel n large)
            ∙ length-append (digits_within fuel (n / 10)) ((b'0' + n % 10) ∷ [])))
]

-- There is a digit, and no zero in front unless the number is zero.
pub length-digits_within : (fuel n : ℕ) → 0 < length (digits_within (suc fuel) n)
length-digits_within fuel n = elim (small_or_large n) [
  | inl small ↦ omega (arith, ap length (digits_within-small fuel n small))
  | inr large ↦ omega (
    arith,
    ap length (digits_within-large fuel n large),
    length-append (digits_within fuel (n / 10)) ((b'0' + n % 10) ∷ []),
  )
]

starts_with_zero-digits_within :
    (fuel n : ℕ) (cs : List ℕ)
    → n < fuel
    → 0 < n
    → starts_with_zero (digits_within fuel n ++ cs) ≡ false
starts_with_zero-digits_within zero n cs h k = absurd (omega arith)
starts_with_zero-digits_within (suc fuel) n cs h k = elim (small_or_large n) [
  | inl small ↦
      ap (λ xs. starts_with_zero (xs ++ cs)) (digits_within-small fuel n small) ∙ not_zero n k
  | inr large ↦
      ap starts_with_zero (append-digit fuel n cs large)
      ∙ starts_with_zero-digits_within fuel (n / 10) ((b'0' + n % 10) ∷ cs) (omega arith)
          (omega arith)
]
  where
    not_zero : (n : ℕ) → 0 < n → (b'0' + n == b'0') ≡ false
    not_zero n k = ground (arith, k)

tenth : (k n : ℕ) → n < 10 ^ suc k → n / 10 < 10 ^ k
tenth k n h = omega (arith, pow-suc 10 k, h)

more : (k n : ℕ) → n < 10 ^ suc k → 10 ≤ n → 0 < k
more zero n h l = absurd (omega arith)
more (suc k) n h l = omega arith

-- How many digits a number has at most.
length-le : (k fuel n : ℕ) → n < 10 ^ k → 0 < k → n < fuel → length (digits_within fuel n) ≤ k
length-le zero fuel n h p q = absurd (omega arith)
length-le (suc k) zero n h p q = absurd (omega arith)
length-le (suc k) (suc fuel) n h p q = elim (small_or_large n) [
  | inl small ↦ omega (arith, ap length (digits_within-small fuel n small))
  | inr large ↦ omega (
    arith,
    ap length (digits_within-large fuel n large),
    length-append (digits_within fuel (n / 10)) ((b'0' + n % 10) ∷ []),
    length-le k fuel (n / 10) (tenth k n h) (more k n h large) (omega arith),
  )
]

-- A text that goes on with no digit is read up to there.
pub read_digits-end :
    (value count : ℕ) (cs : List ℕ)
    → EndsDigits cs
    → read_digits 10 cs value count ≡ (value, count, cs)
unfolding read_digits
read_digits-end value count [] e = refl
read_digits-end value count (c ∷ cs) e =
    ap
      (λ o. elim o as (λ _. ℕ × ℕ × List ℕ) [
        | none ↦ (value, count, c ∷ cs)
        | some d ↦ read_digits 10 cs (value * 10 + d) (count + 1)
      ])
      e

leads :
    (n : ℕ) (cs : List ℕ)
    → (starts_with_zero (decimal n ++ cs) && ltb 1 (length (decimal n))) ≡ false
unfolding decimal
leads zero cs = refl
leads (suc n) cs =
    ap (λ b. b && ltb 1 (length (digits_within (suc (suc n)) (suc n))))
      (starts_with_zero-digits_within (suc (suc n)) (suc n) cs (omega arith) (omega arith))

pub read_digits-decimal :
    (n : ℕ) (cs : List ℕ)
    → EndsDigits cs
    → read_digits 10 (decimal n ++ cs) 0 0 ≡ (n, length (decimal n), cs)
unfolding decimal
read_digits-decimal n cs e =
    read_digits-digits_within (suc n) n cs (omega arith)
    ∙ read_digits-end n (length (decimal n)) cs e

checked-some :
    (most : Option ℕ) (zeros leading : Bool) (limit v k : ℕ) (rest : List ℕ)
    → 0 < k
    → (leading && ltb 1 k) ≡ false
    → within most k ≡ true
    → v ≤ limit
    → checked most zeros leading limit (v, k, rest) ≡ some (v, rest)
checked-some most true leading limit v k rest p q r h = ground (arith, p, r, h)
checked-some most false leading limit v k rest p q r h = ground (arith, p, q, r, h)

-- A number in range is read from what it prints, whether zeros in front are allowed or not, and up
-- to what follows.
pub read_number-decimal :
    (most : Option ℕ) (zeros : Bool) (limit n : ℕ) (cs : List ℕ)
    → EndsDigits cs
    → n ≤ limit
    → within most (length (decimal n)) ≡ true
    → read_number 10 most zeros limit (decimal n ++ cs) ≡ some (n, cs)
unfolding read_number decimal
read_number-decimal most zeros limit n cs e h w =
    ap (checked most zeros (starts_with_zero (decimal n ++ cs)) limit) (read_digits-decimal n cs e)
    ∙ checked-some most zeros (starts_with_zero (decimal n ++ cs)) limit n (length (decimal n)) cs
        (length-digits_within n n) (leads n cs) w h

pub length-decimal : (k n : ℕ) → n < 10 ^ k → 0 < k → length (decimal n) ≤ k
unfolding decimal
length-decimal k n h p = length-le k (suc n) n h p (omega arith)
