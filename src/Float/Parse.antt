-- ===== src/Float/Parse.antt =====
-- `str::parse::<f64>`: the texts that the standard library reads as a double, and the double nearest
-- to the decimal number that such a text stands for.
use aggbook.Prelude.{
  ℕ, zero, suc, ◌+◌, ◌-◌, ◌*◌, ◌/◌, ◌%◌, ◌^◌, Bool, true, false, ◌&&◌, ◌||◌, String, Option, none,
  some, List, [], ◌∷◌, leb, ltb, ◌==◌, if◌then◌else◌, map, codes, lower, same_codes,
}
use mathlib.Core.Option
use aggbook.Float.{F64, infinite, nan, round_quarters}

abbrev is_digit : ℕ → Bool
is_digit c = leb b'0' c && leb c b'9'

-- The digits at the head of a text: the number read so far, how many digits, and what is left.
digits : List ℕ → ℕ → ℕ → ℕ × ℕ × List ℕ
digits [] value count = (value, count, [])
digits (c ∷ cs) value count =
    let more = digits cs (10 * value + (c - b'0')) (count + 1) in
    if is_digit c then more else (value, count, c ∷ cs)

-- `mantissa * 10 ^ (up - down)`: exactly, in quarters of 2 ^ -1074, with the last bit set where a
-- fraction of a quarter is left over.
nearest : ℕ → ℕ → ℕ → ℕ
nearest mantissa up down =
    let num = mantissa * 10 ^ up * 2 ^ 1076 in
    let den = 10 ^ down in
    let t = num / den in
    if ltb (2 ^ 2102) t
    then infinite
    else round_quarters (if num % den == 0 then t else t + (1 - t % 2))

-- The digits of an exponent, which are at least one and end the text.
power : Bool → ℕ → ℕ → ℕ × ℕ × List ℕ → Option ℕ
unfolding nearest
power minus mantissa fraction (value, suc count, []) =
    if minus
    then some (nearest mantissa 0 (fraction + value))
    else some (nearest mantissa value fraction)
power minus mantissa fraction _ = none

scale : ℕ → ℕ → List ℕ → Option ℕ
unfolding power digits
scale mantissa fraction [] = none
scale mantissa fraction (c ∷ cs) =
    if c == b'-'
    then power true mantissa fraction (digits cs 0 0)
    else if c == b'+'
    then power false mantissa fraction (digits cs 0 0)
    else power false mantissa fraction (digits (c ∷ cs) 0 0)

-- What follows the digits, `fraction` of which stand behind the point: nothing, or an exponent.
exponent : ℕ → ℕ → List ℕ → Option ℕ
unfolding scale nearest
exponent mantissa fraction [] = some (nearest mantissa 0 fraction)
exponent mantissa fraction (c ∷ cs) = if lower c == b'e' then scale mantissa fraction cs else none

-- Behind the point: more digits, of which there must be one here or before the point.
fraction_of : ℕ → ℕ → ℕ × ℕ × List ℕ → Option ℕ
unfolding exponent
fraction_of whole count (value, more, rest) =
    if count + more == 0 then none else exponent value more rest

number : ℕ × ℕ × List ℕ → Option ℕ
unfolding exponent fraction_of digits
number (value, count, c ∷ cs) =
    if c == b'.'
    then fraction_of value count (digits cs value 0)
    else if count == 0
    then none
    else exponent value 0 (c ∷ cs)
number (value, zero, []) = none
number (value, suc count, []) = exponent value 0 []

-- A magnitude: a word for infinity or NaN in any case of letters, or a decimal number.
magnitude : List ℕ → Option ℕ
unfolding number digits same_codes lower
magnitude cs =
    let word = map lower cs in
    if same_codes word (codes "inf") || same_codes word (codes "infinity")
    then some infinite
    else if same_codes word (codes "nan")
    then some nan.magnitude
    else number (digits cs 0 0)

signed : Bool → List ℕ → Option F64
unfolding magnitude
signed minus cs = Option.map (λ m. record { negative = minus; magnitude = m }) (magnitude cs)

parse_codes : List ℕ → Option F64
unfolding signed
parse_codes [] = none
parse_codes (c ∷ cs) =
    if c == b'-'
    then signed true cs
    else if c == b'+'
    then signed false cs
    else signed false (c ∷ cs)

unfoldable pub parse_f64 : String → Option F64
unfolding parse_codes round_quarters
parse_f64 s = parse_codes (codes s)
