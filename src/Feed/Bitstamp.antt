-- ===== src/Feed/Bitstamp.antt =====
-- crates/aggserver/src/service/sources/bitstamp.rs: `parse_bitstamp_update`.
pub mod Laws
pub mod Message
pub mod Relevance
pub mod Safety
use text.Mathlib.Text.{◌==◌ as str_eq}
use aggbook.Prelude.{
  ℕ, zero, String, Option, some, none, List, [], ◌∷◌, take, Outcome, ok, ◌>>=◌, unwrap_or, ok_or,
  if◌then◌else◌,
}
use aggbook.Float.{F64, zero_f64, gt}
use aggbook.Float.Parse.{parse_f64}
use aggbook.Sources.{bitstamp}
use aggbook.Book.{ContributorSnapshot, new_snapshot, push, push_bid, push_ask}
use aggbook.Feed.{Json, json_error, float_error}

module _ (json : Json) where
  open json use {Value, from_str, get, at_key, at_index, as_array, as_str}

  -- The body of the loop for an entry whose two texts are `price_s` and `qty_s`, if it has them.
  pub push_texts :
      (F64 → F64 → ContributorSnapshot → ContributorSnapshot)
      → Option String
      → Option String
      → ContributorSnapshot
      → Outcome ContributorSnapshot
  unfolding parse_f64
  push_texts push (some price_s) (some qty_s) snap = do
    price ← ok_or float_error (parse_f64 price_s)
    qty ← ok_or float_error (parse_f64 qty_s)
    ok (if gt qty zero_f64 then push price qty snap else snap)
  push_texts push _ _ snap = ok snap

  pub push_entries :
      (F64 → F64 → ContributorSnapshot → ContributorSnapshot)
      → List Value
      → ContributorSnapshot
      → Outcome ContributorSnapshot
  unfolding push_texts
  push_entries push [] snap = ok snap
  push_entries push (entry ∷ entries) snap = do
    next ← push_texts push (as_str (at_index entry 0)) (as_str (at_index entry 1)) snap
    push_entries push entries next

  abbrev pub event_of : Value → String
  event_of v = unwrap_or "" (elim (get v "event") [ none ↦ none | some e ↦ as_str e ])

  abbrev pub channel_of : Value → String
  channel_of v = unwrap_or "" (as_str (at_key v "channel"))

  -- A side of the message, empty unless it is an array.
  abbrev pub entries_of : Value → String → List Value
  entries_of v key = unwrap_or [] (as_array (at_key (at_key v "data") key))

  unfoldable pub parse_bitstamp_update :
      ℕ → String → String → ℕ → Outcome (Option ContributorSnapshot)
  unfolding push_entries push
  parse_bitstamp_update n txt subscribed_channel arrival_time = do
    v ← ok_or json_error (from_str txt)
    if str_eq (event_of v) "data"
        then if str_eq (channel_of v) subscribed_channel
          then (do
            bids ←
                push_entries (push_bid n) (take n (entries_of v "bids"))
                  (new_snapshot n bitstamp arrival_time)
            snap ← push_entries (push_ask n) (take n (entries_of v "asks")) bids
            ok (some snap))
          else ok none
        else ok none
