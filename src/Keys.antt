-- ===== src/Keys.antt =====
-- crates/aggserver/src/service/model.rs: the prices as keys of an ordered map, `AskKeyedPrice` in
-- ascending and `BidKeyedPrice` in descending order.
pub mod Order
use aggbook.Prelude.{Ordering, Outcome, ok, ◌>>=◌, unwrap, if◌then◌else◌, Bool}
use aggbook.Float.{F64, zero_f64, is_nan, partial_cmp, eq}

pub record AskKeyedPrice : Type 0 where
  pub value : F64

pub record BidKeyedPrice : Type 0 where
  pub value : F64

-- `new`: NaN is replaced by 0.0.
unfoldable pub new_ask : F64 → AskKeyedPrice
new_ask v = if is_nan v then record { value = zero_f64 } else record { value = v }

unfoldable pub new_bid : F64 → BidKeyedPrice
new_bid v = if is_nan v then record { value = zero_f64 } else record { value = v }

-- `PartialEq`.
abbrev pub eq_ask : AskKeyedPrice → AskKeyedPrice → Bool
eq_ask a b = eq a.value b.value

abbrev pub eq_bid : BidKeyedPrice → BidKeyedPrice → Bool
eq_bid a b = eq a.value b.value

-- `Ord`: the `unwrap` panics where a value is NaN.
unfoldable pub cmp_ask : AskKeyedPrice → AskKeyedPrice → Outcome Ordering
cmp_ask a b = unwrap (partial_cmp a.value b.value)

-- `Ordering::reverse`.
abbrev pub reverse : Ordering → Ordering
reverse Ordering.lt = Ordering.gt
reverse Ordering.eq = Ordering.eq
reverse Ordering.gt = Ordering.lt

unfoldable pub cmp_bid : BidKeyedPrice → BidKeyedPrice → Outcome Ordering
cmp_bid a b = do o ← unwrap (partial_cmp a.value b.value); ok (reverse o)
