-- ===== src/Feed.antt =====
-- crates/aggserver/src/service/sources: the feeds of the two exchanges. `Json` is what they use of
-- `serde_json`, which is not part of the repository.
pub mod Binance
pub mod Bitstamp
pub mod Entries
pub mod Task
pub mod Wire
use aggbook.Prelude.{ℕ, String, Option, List}

pub record Json : Type 1 where
  pub Value : Type 0
  -- `serde_json::from_str`; `none` is its error.
  pub from_str : String → Option Value
  -- `value.get(key)`.
  pub get : Value → String → Option Value
  -- `value[key]` and `value[i]`, which are null where there is nothing.
  pub at_key : Value → String → Value
  pub at_index : Value → ℕ → Value
  pub as_array : Value → Option (List Value)
  pub as_str : Value → Option String

abbrev pub json_error : String
json_error = "invalid JSON"

abbrev pub float_error : String
float_error = "invalid float literal"
