-- ===== src/Sources/Names.antt =====
-- Names of sources: what `from_str` reads.
use aggbook.Prelude.{◌≡◌, refl, ◌↔◌, String, ok, arith, codes, to_lowercase, same_codes_iff}
use aggbook.Sources.{SourceId, bitstamp, binance, to_string, from_str}

-- A text is read as a source exactly when its lower case is the name that the source prints.
pub from_str_iff :
    (s : String) (id : SourceId) → (from_str s ≡ ok id) ↔ (to_lowercase s ≡ codes (to_string id))
unfolding from_str
from_str_iff s bitstamp = ground (
  arith,
  same_codes_iff (to_lowercase s) (codes "bitstamp"),
  same_codes_iff (to_lowercase s) (codes "binance"),
)
from_str_iff s binance = ground (
  arith,
  same_codes_iff (to_lowercase s) (codes "bitstamp"),
  same_codes_iff (to_lowercase s) (codes "binance"),
)

-- Every source is read back from the name that it prints.
pub from_str-to_string : (id : SourceId) → from_str (to_string id) ≡ ok id
unfolding from_str
from_str-to_string bitstamp = refl
from_str-to_string binance = refl
