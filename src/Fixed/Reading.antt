-- ===== src/Fixed/Reading.antt =====
-- A printed number is read, place by place, as the number that it was printed from.
use mathlib.Core.List.{append_assoc, append-nil}
use native.Mathlib.Nat.{pow-suc, mul_assoc, mod-lt, div-add-mod'}
use aggbook.Prelude.{
  ℕ, zero, suc, ◌+◌, ◌*◌, ◌/◌, ◌%◌, ◌^◌, ◌<◌, ◌≡◌, refl, sym, ap, ap₂, ◌∙◌, true, false, Option,
  some, none, List, [], ◌∷◌, ◌++◌, ◌==◌, if◌then◌else◌, ltb, codes, arith,
}
use aggbook.Decimal.{to_digit, read_digits}
use aggbook.Decimal.RoundTrip.{read_digits-decimal, read_digits-one, read_digits-end}
use aggbook.Float.{F64, infinite, units}
use aggbook.Fixed.{padded, fixed, sign, last_places, format_f64}
use aggbook.Fixed.Nearest.{IsRounded, round_div-IsRounded}

-- The number of units of the last place that a text stands for, if it has so many places.
abbrev end_of : ℕ → ℕ × ℕ × List ℕ → Option ℕ
end_of places (value, count, []) = if count == places then some value else none
end_of places (value, count, c ∷ cs) = none

abbrev behind_point : ℕ → ℕ × ℕ × List ℕ → Option ℕ
behind_point zero (value, count, []) = some value
behind_point (suc places) (value, count, c ∷ cs) =
    if c == b'.' then end_of (suc places) (read_digits 10 cs value 0) else none
behind_point _ _ = none

abbrev pub read_fixed : ℕ → List ℕ → Option ℕ
read_fixed places cs = behind_point places (read_digits 10 cs 0 0)

shift : (v t n : ℕ) → (v * t + n / 10) * 10 + n % 10 ≡ v * (t * 10) + n
shift v t n = omega (arith, mul_assoc v t 10)

read_digits-padded :
    (places n v k : ℕ) (cs : List ℕ)
    → n < 10 ^ places
    → read_digits 10 (padded places n ++ cs) v k
      ≡ read_digits 10 cs (v * 10 ^ places + n) (k + places)
unfolding padded
read_digits-padded zero n v k cs h = ap₂ (λ v k. read_digits 10 cs v k) (omega arith) (omega arith)
read_digits-padded (suc places) n v k cs h =
    ap (λ xs. read_digits 10 xs v k)
      (append_assoc (padded places (n / 10)) ((b'0' + n % 10) ∷ []) cs)
    ∙ read_digits-padded places (n / 10) v k ((b'0' + n % 10) ∷ cs)
        (omega (arith, pow-suc 10 places, h))
    ∙ read_digits-one (n % 10) (v * 10 ^ places + n / 10) (k + places) cs (omega arith)
    ∙ ap₂ (λ v k. read_digits 10 cs v k)
        (shift v (10 ^ places) n ∙ ap (λ t. v * t + n) (sym (pow-suc 10 places))) (omega arith)

point : to_digit 10 b'.' ≡ none
unfolding to_digit
point = refl

same : (k : ℕ) → (0 + k == k) ≡ true
same k = ground arith

below : (a b : ℕ) → a < b → (ltb b a ≡ false) × ((a == b) ≡ false)
below a b h = (ground (arith, h), ground (arith, h))

pow_pos : (places : ℕ) → 0 < 10 ^ places
pow_pos zero = omega arith
pow_pos (suc places) = omega (arith, pow-suc 10 places, pow_pos places)

read_fixed-fixed : (places q : ℕ) → read_fixed places (fixed places q) ≡ some q
read_fixed-fixed zero q =
    ap (behind_point 0) (read_digits-decimal (q / 1) [] tt) ∙ ap some (omega arith)
read_fixed-fixed (suc places) q =
    let t = 10 ^ suc places in
    let digits = padded (suc places) (q % t) in
    ap (behind_point (suc places)) (read_digits-decimal (q / t) (b'.' ∷ digits) point)
    ∙ ap (end_of (suc places)) (
        ap (λ xs. read_digits 10 xs (q / t) 0) (sym (append-nil digits))
        ∙ read_digits-padded (suc places) (q % t) (q / t) 0 [] (mod-lt q (pow_pos (suc places)))
        ∙ read_digits-end (q / t * t + q % t) (0 + suc places) [] tt)
    ∙ ap (λ b. if b then some (q / t * t + q % t) else none) (same (suc places))
    ∙ ap some (div-add-mod' q t)

-- What is printed of a number that is neither infinite nor NaN is its sign and a text that stands for
-- the nearest number with so many places; a tie goes to the even one.
pub format_f64-IsRounded :
    (places : ℕ) (x : F64)
    → x.magnitude < infinite
    → (q : ℕ) × (text : List ℕ) × (format_f64 places x ≡ sign x.negative ++ text)
      × (read_fixed places text ≡ some q)
      × IsRounded (units x.magnitude * 10 ^ places) (2 ^ 1074) q
unfolding format_f64
format_f64-IsRounded places x h =
    let q = last_places places x.magnitude in
    (
      q,
      fixed places q,
      ap₂
          (λ b c.
            if b
            then codes "NaN"
            else if c
            then sign x.negative ++ codes "inf"
            else sign x.negative ++ fixed places q)
          (below x.magnitude infinite h).0 (below x.magnitude infinite h).1,
      read_fixed-fixed places q,
      round_div-IsRounded (units x.magnitude * 10 ^ places) (2 ^ 1074) (omega arith),
    )
