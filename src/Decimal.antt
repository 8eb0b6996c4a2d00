-- ===== src/Decimal.antt =====
-- Numbers as text: `Display` of the unsigned integers, and the digits at the head of a text as
-- `core::net::parser` reads them.
pub mod RoundTrip
use aggbook.Prelude.{
  ℕ, zero, suc, ◌+◌, ◌-◌, ◌*◌, ◌/◌, ◌%◌, Bool, true, false, not, ◌&&◌, Option, none, some, List, [],
  ◌∷◌, ◌++◌, leb, ltb, ◌==◌, if◌then◌else◌,
}

-- The digits of a number; the fuel bounds how many there are.
pub digits_within : ℕ → ℕ → List ℕ
digits_within zero n = []
digits_within (suc fuel) n =
    let front = digits_within fuel (n / 10) in
    if ltb n 10 then (b'0' + n) ∷ [] else front ++ (b'0' + n % 10) ∷ []

-- `to_string`.
unfoldable pub decimal : ℕ → List ℕ
unfolding digits_within
decimal n = digits_within (suc n) n

-- `char::to_digit`, at the radix 10 or 16.
unfoldable pub to_digit : ℕ → ℕ → Option ℕ
to_digit radix c =
    if leb b'0' c && leb c b'9'
    then some (c - b'0')
    else if (radix == 16) && (leb b'a' c && leb c b'f')
    then some (c - b'a' + 10)
    else if (radix == 16) && (leb b'A' c && leb c b'F')
    then some (c - b'A' + 10)
    else none

-- The digits at the head of a text: the number with the digits read so far, how many, and what is
-- left.
unfoldable pub read_digits : ℕ → List ℕ → ℕ → ℕ → ℕ × ℕ × List ℕ
unfolding to_digit
read_digits radix [] value count = (value, count, [])
read_digits radix (c ∷ cs) value count = elim (to_digit radix c) [
  | none ↦ (value, count, c ∷ cs)
  | some d ↦ read_digits radix cs (value * radix + d) (count + 1)
]

abbrev pub within : Option ℕ → ℕ → Bool
within none count = true
within (some most) count = leb count most

abbrev pub starts_with_zero : List ℕ → Bool
starts_with_zero [] = false
starts_with_zero (c ∷ cs) = c == b'0'

-- `read_number`: at most so many digits, without a zero in front unless it is allowed, of a number
-- that is at most `limit`.
abbrev pub checked : Option ℕ → Bool → Bool → ℕ → ℕ × ℕ × List ℕ → Option (ℕ × List ℕ)
checked most zeros leading limit (value, count, rest) =
    if count == 0
    then none
    else if not zeros && (leading && ltb 1 count)
    then none
    else if within most count && leb value limit
    then some (value, rest)
    else none

unfoldable pub read_number : ℕ → Option ℕ → Bool → ℕ → List ℕ → Option (ℕ × List ℕ)
unfolding read_digits
read_number radix most zeros limit cs =
    checked most zeros (starts_with_zero cs) limit (read_digits radix cs 0 0)
