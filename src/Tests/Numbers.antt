-- ===== src/Tests/Numbers.antt =====
-- Tests of the names of sources, of the reading of doubles and of the keys.
use aggbook.Prelude.{◌≡◌, ◌↔◌, refl, some, none, Ordering, ok, to_lowercase, codes, true}
use aggbook.Float.{nan}
use aggbook.Float.Parse.{parse_f64}
use aggbook.Sources.{binance, from_str, to_string}
use aggbook.Sources.Names.{from_str_iff}
use aggbook.Keys.{new_ask, new_bid, cmp_ask, cmp_bid, eq_ask, eq_bid, reverse}
use aggbook.Keys.Order.{cmp-lawful}
use aggbook.Tests.Sample.{number, one}

-- The nearest double, ties to even: a price, a value that is no binary fraction, a tie, the least
-- and the greatest finite value.
reads :
    (parse_f64 "0.02394000" ≡ some (number 4582557456613495915))
    × (parse_f64 "7.5" ≡ some (number 4620130267728707584))
    × (parse_f64 "9007199254740993" ≡ some (number 4845873199050653696))
    × (parse_f64 "4.9e-324" ≡ some (number 1))
    × (parse_f64 "1.7976931348623157e308" ≡ some (number 9218868437227405311))
unfolding parse_f64
reads = (refl, refl, refl, refl, refl)

refuses : (parse_f64 "." ≡ none) × (parse_f64 "" ≡ none) × (parse_f64 "1.5x" ≡ none)
unfolding parse_f64
refuses = (refl, refl, refl)

from_str_iff_example :
    (from_str "BINANCE" ≡ ok binance) ↔ (to_lowercase "BINANCE" ≡ codes (to_string binance))
from_str_iff_example = from_str_iff "BINANCE" binance

-- NaN is a key like 0.0.
cmp-lawful_example :
    (o : Ordering) × (cmp_ask (new_ask nan) (new_ask one) ≡ ok o)
    × (cmp_ask (new_ask one) (new_ask nan) ≡ ok (reverse o))
    × (cmp_bid (new_bid nan) (new_bid one) ≡ ok (reverse o))
    × ((eq_ask (new_ask nan) (new_ask one) ≡ true) ↔ (o ≡ Ordering.eq))
    × ((eq_bid (new_bid nan) (new_bid one) ≡ true) ↔ (o ≡ Ordering.eq))
cmp-lawful_example = cmp-lawful nan one
