-- ===== src/Fixed.antt =====
-- How the standard library prints a double with a given number of places behind the point,
-- `{:.places}`, and how it fills a text up to a width, `{:>width}`. A text is its code points.
pub mod Nearest
pub mod Reading
use aggbook.Prelude.{
  ℕ, zero, suc, ◌+◌, ◌-◌, ◌*◌, ◌/◌, ◌%◌, ◌^◌, Bool, true, false, ◌&&◌, ◌||◌, List, [], ◌∷◌, ◌++◌,
  length, replicate, ltb, ◌==◌, codes, if◌then◌else◌,
}
use aggbook.Float.{F64, is_nan, infinite, units}
use aggbook.Decimal.{decimal}

-- The quotient rounded to the nearest number, a tie going to the even one.
unfoldable pub round_div : ℕ → ℕ → ℕ
round_div num den =
    let q = num / den in
    let r = num % den in if ltb den (2 * r) || ((2 * r == den) && (q % 2 == 1)) then q + 1 else q

-- So many digits of a number, with zeros in front.
unfoldable pub padded : ℕ → ℕ → List ℕ
padded zero n = []
padded (suc places) n = padded places (n / 10) ++ (b'0' + n % 10) ∷ []

abbrev pub point_and : ℕ → ℕ → List ℕ
point_and zero n = []
point_and (suc places) n = b'.' ∷ padded (suc places) n

-- A number of units of the last place.
abbrev pub fixed : ℕ → ℕ → List ℕ
fixed places q = decimal (q / 10 ^ places) ++ point_and places (q % 10 ^ places)

-- The magnitude in units of the last place: a finite magnitude is `units` times 2 ^ -1074.
abbrev pub last_places : ℕ → ℕ → ℕ
last_places places m = round_div (units m * 10 ^ places) (2 ^ 1074)

abbrev pub sign : Bool → List ℕ
sign true = b'-' ∷ []
sign false = []

unfoldable pub format_f64 : ℕ → F64 → List ℕ
unfolding round_div padded
format_f64 places x =
    if is_nan x
    then codes "NaN"
    else if x.magnitude == infinite
    then sign x.negative ++ codes "inf"
    else sign x.negative ++ fixed places (last_places places x.magnitude)

-- `{:>width}`.
abbrev pub right : ℕ → List ℕ → List ℕ
right width s = replicate (width - length s) b' ' ++ s
