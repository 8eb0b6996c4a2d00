-- ===== src/Float/Order.antt =====
-- The order of the numbers among the doubles.
use aggbook.Prelude.{◌≡◌, compare, true, false, some, arith}
use aggbook.Float.{F64, is_nan, rank, partial_cmp, gt}

pub partial_cmp-number :
    (x y : F64)
    → is_nan x ≡ false
    → is_nan y ≡ false
    → partial_cmp x y ≡ some (compare (rank x) (rank y))
partial_cmp-number x y hx hy = rw (hx, hy)

-- A positive value is a number.
pub gt-number : (x y : F64) → gt x y ≡ true → (is_nan x ≡ false) × (is_nan y ≡ false)
gt-number x y h = ground arith
