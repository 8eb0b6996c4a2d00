-- ===== src/Feed/Binance.antt =====
-- crates/aggserver/src/service/sources/binance.rs: `parse_orderbook_update`.
pub mod Laws
pub mod Numbers
pub mod Panics
use aggbook.Prelude.{
  ℕ, zero, String, Option, some, none, List, [], ◌∷◌, take, Outcome, ok, ◌>>=◌, unwrap, ok_or,
  if◌then◌else◌,
}
use aggbook.Float.{F64, zero_f64, gt}
use aggbook.Float.Parse.{parse_f64}
use aggbook.Sources.{binance}
use aggbook.Book.{ContributorSnapshot, new_snapshot, push, push_bid, push_ask}
use aggbook.Feed.{Json, json_error, float_error}

module _ (json : Json) where
  open json use {Value, from_str, get, at_index, as_array, as_str}

  -- `entry[i].as_str().unwrap().parse::<f64>()?`.
  unfoldable pub read_number : Value → ℕ → Outcome F64
  read_number entry i = do
    text ← unwrap (as_str (at_index entry i))
    ok_or float_error (parse_f64 text)

  -- The loop over the entries of one side.
  pub push_entries :
      (F64 → F64 → ContributorSnapshot → ContributorSnapshot)
      → List Value
      → ContributorSnapshot
      → Outcome ContributorSnapshot
  unfolding read_number parse_f64
  push_entries push [] snap = ok snap
  push_entries push (entry ∷ entries) snap = do
    price ← read_number entry 0
    qty ← read_number entry 1
    push_entries push entries (if gt qty zero_f64 then push price qty snap else snap)

  -- One side of the message: nothing happens unless it is an array.
  pub push_side :
      ℕ
      → (F64 → F64 → ContributorSnapshot → ContributorSnapshot)
      → Option (List Value)
      → ContributorSnapshot
      → Outcome ContributorSnapshot
  unfolding push_entries
  push_side n push none snap = ok snap
  push_side n push (some entries) snap = push_entries push (take n entries) snap

  abbrev pub array_at : Value → String → Option (List Value)
  array_at value key = elim (get value key) [ none ↦ none | some v ↦ as_array v ]

  unfoldable pub parse_orderbook_update : ℕ → String → ℕ → Outcome ContributorSnapshot
  unfolding push_side push
  parse_orderbook_update n payload arrival_time = do
    value ← ok_or json_error (from_str payload)
    snap ← push_side n (push_bid n) (array_at value "bids") (new_snapshot n binance arrival_time)
    push_side n (push_ask n) (array_at value "asks") snap
