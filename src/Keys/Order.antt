-- ===== src/Keys/Order.antt =====
-- The keys are totally ordered: `cmp` goes by a number, and `new` makes keys that it accepts.
use aggbook.Prelude.{Outcome, ℕ, ◌-◌, ◌*◌, ◌≤◌, ◌≡◌, ◌↔◌, compare, Ordering, true, false, ok, arith}
use aggbook.Float.{F64, infinite, is_nan, rank}
use aggbook.Keys.{
  AskKeyedPrice, BidKeyedPrice, new_ask, new_bid, eq_ask, eq_bid, cmp_ask, cmp_bid, reverse,
}

abbrev pub IsNumber : F64 → Type 0
IsNumber x = is_nan x ≡ false

abbrev pub ask_place : AskKeyedPrice → ℕ
ask_place k = rank k.value

-- The greatest price comes first.
abbrev pub bid_place : BidKeyedPrice → ℕ
bid_place k = 2 * infinite - rank k.value

pub rank-le : (x : F64) → IsNumber x → rank x ≤ 2 * infinite
rank-le x h = ground arith

pub new_ask-IsNumber : (v : F64) → IsNumber (new_ask v).value
unfolding new_ask
new_ask-IsNumber v = ground arith

pub new_bid-IsNumber : (v : F64) → IsNumber (new_bid v).value
unfolding new_bid
new_bid-IsNumber v = ground arith

pub cmp_ask-compare :
    (a b : AskKeyedPrice)
    → IsNumber a.value
    → IsNumber b.value
    → cmp_ask a b ≡ ok (compare (ask_place a) (ask_place b))
unfolding cmp_ask
cmp_ask-compare a b ga gb = rw (ga, gb)

reverse-compare : (t x y : ℕ) → x ≤ t → y ≤ t → reverse (compare x y) ≡ compare (t - x) (t - y)
reverse-compare t x y h k = ground arith

pub cmp_bid-compare :
    (a b : BidKeyedPrice)
    → IsNumber a.value
    → IsNumber b.value
    → cmp_bid a b ≡ ok (compare (bid_place a) (bid_place b))
unfolding cmp_bid
cmp_bid-compare a b ga gb = rw (
  ga,
  gb,
  reverse-compare (2 * infinite) (rank a.value) (rank b.value) (rank-le a.value ga)
      (rank-le b.value gb),
)

-- Keys made by `new` never panic: comparing them both ways gives opposite answers, `Equal` exactly
-- where `==` holds, and bids are ordered the other way round than asks.
pub cmp-lawful :
    (v w : F64)
    → (o : Ordering) × (cmp_ask (new_ask v) (new_ask w) ≡ ok o)
      × (cmp_ask (new_ask w) (new_ask v) ≡ ok (reverse o))
      × (cmp_bid (new_bid v) (new_bid w) ≡ ok (reverse o))
      × ((eq_ask (new_ask v) (new_ask w) ≡ true) ↔ (o ≡ Ordering.eq))
      × ((eq_bid (new_bid v) (new_bid w) ≡ true) ↔ (o ≡ Ordering.eq))
unfolding cmp_ask cmp_bid new_ask new_bid
cmp-lawful v w = (
  compare (rank (new_ask v).value) (rank (new_ask w).value),
  ground arith,
  ground arith,
  ground arith,
  ground arith,
  ground arith,
)

-- What an ordered map needs of its keys: `cmp` goes by a number at the keys that `new` makes.
pub record PriceKey : Type 1 where
  pub Key : Type 0
  pub new : F64 → Key
  pub cmp : Key → Key → Outcome Ordering
  pub place : Key → ℕ
  pub IsGood : Key → Type 0
  pub new_good : (v : F64) → IsGood (new v)
  pub law : (a b : Key) → IsGood a → IsGood b → cmp a b ≡ ok (compare (place a) (place b))

abbrev pub ask_key : PriceKey
ask_key = record {
  Key = AskKeyedPrice;
  new = new_ask;
  cmp = cmp_ask;
  place = ask_place;
  IsGood = λ k. IsNumber k.value;
  new_good = new_ask-IsNumber;
  law = cmp_ask-compare;
}

abbrev pub bid_key : PriceKey
bid_key = record {
  Key = BidKeyedPrice;
  new = new_bid;
  cmp = cmp_bid;
  place = bid_place;
  IsGood = λ k. IsNumber k.value;
  new_good = new_bid-IsNumber;
  law = cmp_bid-compare;
}
