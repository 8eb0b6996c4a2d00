-- ===== src/Sources.antt =====
-- crates/aggcommon/src/sources.rs: the ids of the data sources and their names.
pub mod Names
use aggbook.Prelude.{ℕ, String, Outcome, ok, err, if◌then◌else◌, codes, to_lowercase, same_codes}

pub data SourceId : Type 0 where
  bitstamp binance : SourceId

abbrev pub num_sources : ℕ
num_sources = 2

-- `Display`, which `to_string` goes by.
abbrev pub to_string : SourceId → String
to_string bitstamp = "bitstamp"
to_string binance = "binance"

-- `FromStr`; the error keeps the text as it was given.
pub from_str : String → Outcome SourceId
unfolding same_codes to_lowercase
from_str s =
    if same_codes (to_lowercase s) (codes "bitstamp")
    then ok bitstamp
    else if same_codes (to_lowercase s) (codes "binance")
    then ok binance
    else err s

-- `From<SourceId> for usize`, the slot of a source in the combined summary.
abbrev pub index : SourceId → ℕ
index bitstamp = 0
index binance = 1

abbrev pub default : SourceId
default = bitstamp
