-- ===== src/Float.antt =====
-- The primitive type `f64` of the source: an IEEE 754 double as its bits, a sign and the other 63
-- bits read as a number, with the operations that the code uses: `is_nan`, `partial_cmp` and the
-- operators that stand on it, and subtraction, rounded to the nearest even.
pub mod Order
pub mod Parse
use aggbook.Prelude.{
  ℕ, zero, suc, ◌+◌, ◌-◌, ◌*◌, ◌/◌, ◌%◌, ◌^◌, min, compare, Ordering, Bool, true, false, not, ◌&&◌,
  ◌||◌, Option, none, some, ltb, leb, ◌==◌, if◌then◌else◌,
}

pub record F64 : Type 0 where
  pub negative : Bool
  -- 11 bits of exponent and 52 of fraction, below 2 ^ 63
  pub magnitude : ℕ

abbrev pub infinite : ℕ
infinite = 0x7ff0_0000_0000_0000

abbrev pub nan : F64
nan = record { negative = false; magnitude = 0x7ff8_0000_0000_0000 }

abbrev pub zero_f64 : F64
zero_f64 = record { negative = false; magnitude = 0 }

abbrev pub is_nan : F64 → Bool
is_nan x = ltb infinite x.magnitude

-- The place of a number in the order of the reals: magnitudes are ordered as numbers, and the two
-- zeros share a place.
abbrev pub rank : F64 → ℕ
rank x = if x.negative then infinite - x.magnitude else infinite + x.magnitude

abbrev pub partial_cmp : F64 → F64 → Option Ordering
partial_cmp x y = if is_nan x || is_nan y then none else some (compare (rank x) (rank y))

-- `x > y` and `x == y`: both are false at NaN.
abbrev pub gt : F64 → F64 → Bool
gt x y = elim (partial_cmp x y) [ some Ordering.gt ↦ true | some _ ↦ false | none ↦ false ]

abbrev pub eq : F64 → F64 → Bool
eq x y = elim (partial_cmp x y) [ some Ordering.eq ↦ true | some _ ↦ false | none ↦ false ]

-- A finite magnitude in units of 2 ^ -1074, the least positive double.
unfoldable pub units : ℕ → ℕ
units m = if ltb m (2 ^ 52) then m else (2 ^ 52 + m % 2 ^ 52) * 2 ^ (m / 2 ^ 52 - 1)

-- By how many places a number of units has to be shifted to fit into 53 bits. The fuel bounds the
-- number of places; the sum of two finite doubles needs 2047.
places : ℕ → ℕ → ℕ
places zero d = 0
places (suc fuel) d = let rest = places fuel (d / 2) in if ltb d (2 ^ 53) then 0 else suc rest

-- The magnitude nearest to a number of quarters of a unit, a tie going to the even one, and infinity
-- above the greatest double.
unfoldable pub round_quarters : ℕ → ℕ
unfolding places
round_quarters t =
    let s = places 2100 (t / 4) in
    let q = t / 2 ^ (s + 2) in
    let r = t % 2 ^ (s + 2) in
    let up = ltb (2 ^ (s + 1)) r || ((r == 2 ^ (s + 1)) && (q % 2 == 1)) in
    min infinite (s * 2 ^ 52 + q + (if up then 1 else 0))

round_units : ℕ → ℕ
unfolding round_quarters
round_units d = round_quarters (4 * d)

same_sign : Bool → Bool → Bool
same_sign true c = c
same_sign false c = not c

finite_sub : F64 → F64 → F64
unfolding units round_units same_sign
finite_sub x y =
    let a = units x.magnitude in
    let b = units y.magnitude in
    if same_sign x.negative y.negative
    then (if leb b a
        then record {
          negative = (if a == b then false else x.negative);
          magnitude = round_units (a - b);
        }
        else record { negative = not x.negative; magnitude = round_units (b - a) })
    else record { negative = x.negative; magnitude = round_units (a + b) }

-- `x - y`.
unfoldable pub sub : F64 → F64 → F64
unfolding finite_sub
sub x y =
    if is_nan x || is_nan y
    then nan
    else if x.magnitude == infinite
    then (if (y.magnitude == infinite) && eq x y then nan else x)
    else if y.magnitude == infinite
    then record { negative = not y.negative; magnitude = infinite }
    else finite_sub x y
