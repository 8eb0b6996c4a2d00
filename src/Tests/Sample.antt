-- ===== src/Tests/Sample.antt =====
-- The data of the tests: a reader of four messages in the place of `serde_json`, the books that
-- they stand for, and a bounded array in the place of `arrayvec`.
use package.text.Mathlib.Text.{◌==◌ as str_eq}
use aggbook.Prelude.{
  ℕ, zero, suc, String, Option, none, some, List, [], ◌∷◌, ◌++◌, length, ltb, refl, Outcome, ok,
  panic, if◌then◌else◌, false,
}
use aggbook.Float.{F64}
use aggbook.Sources.{bitstamp, binance}
use aggbook.Book.{
  ContributorSnapshot, CombinedSummary, new_combined, new_snapshot, push_bid, push_ask,
  update_snapshot,
}
use aggbook.Feed.{Json}
use aggbook.Summary.{Level}
use aggbook.Summary.Collect.{IsArrayVec}

-- A price entry: two texts, or two numbers.
pub data Entry : Type 0 where
  pair : String → String → Entry
  numbers : ℕ → ℕ → Entry

-- The values of the messages: `sides` has the arrays "bids" and "asks", `frame` has the texts
-- "event" and "channel" and, under "data", two such arrays.
pub data Value : Type 0 where
  null : Value
  text : String → Value
  item : Entry → Value
  array : List Entry → Value
  sides : List Entry → List Entry → Value
  frame : String → String → List Entry → List Entry → Value

abbrev items : List Entry → List Value
items [] = []
items (e ∷ es) = item e ∷ items es

abbrev at_key : Value → String → Value
at_key (sides bids asks) key =
    if str_eq key "bids" then array bids else if str_eq key "asks" then array asks else null
at_key (frame event channel bids asks) key =
    if str_eq key "event"
    then text event
    else if str_eq key "channel"
    then text channel
    else if str_eq key "data"
    then sides bids asks
    else null
at_key _ key = null

abbrev at_index : Value → ℕ → Value
at_index (item (pair p q)) zero = text p
at_index (item (pair p q)) (suc zero) = text q
at_index _ i = null

abbrev present : Value → Option Value
present null = none
present v = some v

abbrev as_array : Value → Option (List Value)
as_array (array es) = some (items es)
as_array _ = none

abbrev as_str : Value → Option String
as_str (text s) = some s
as_str _ = none

abbrev pub binance_bids : List Entry
binance_bids = pair "0.062" "7.5" ∷ pair "0.061" "2.5" ∷ pair "0.06" "0.0" ∷ []

abbrev pub binance_asks : List Entry
binance_asks = pair "0.063" "1.5" ∷ pair "0.064" "0.5" ∷ []

-- The second entry holds numbers in the place of texts.
abbrev pub mixed_bids : List Entry
mixed_bids = pair "0.062" "7.5" ∷ numbers 61 2 ∷ []

abbrev pub read : String → Option Value
read s =
    if str_eq s "binance"
    then some (sides binance_bids binance_asks)
    else if str_eq s "mixed"
    then some (sides mixed_bids [])
    else if str_eq s "bitstamp"
    then some (frame "data" "order_book_ethbtc" mixed_bids binance_asks)
    else if str_eq s "subscribed"
    then some (frame "bts:subscription_succeeded" "order_book_ethbtc" [] [])
    else none

abbrev pub sample_json : Json
sample_json = record {
  Value = Value;
  from_str = read;
  get = λ v key. present (at_key v key);
  at_key = at_key;
  at_index = at_index;
  as_array = as_array;
  as_str = as_str;
}

-- `ArrayVec::push` at the capacity `n`.
abbrev pub push_to : ℕ → List Level → Level → Outcome (List Level)
push_to n v x = if ltb (length v) n then ok (v ++ x ∷ []) else panic

abbrev pub push_to-IsArrayVec : (n : ℕ) → IsArrayVec n (push_to n)
push_to-IsArrayVec n = record { push_lem = λ v x. refl }

-- Doubles by their bits.
abbrev pub number : ℕ → F64
number m = record { negative = false; magnitude = m }

abbrev pub half : F64
half = number 4602678819172646912

abbrev pub one : F64
one = number 4607182418800017408

abbrev pub two : F64
two = number 4611686018427387904

abbrev pub three : F64
three = number 4613937818241073152

abbrev pub four : F64
four = number 4616189618054758400

-- Two books that cross at no price and share the bid of 2.0.
abbrev pub first_book : ContributorSnapshot
first_book =
    push_ask 2 four one (push_bid 2 one half (push_bid 2 two one (new_snapshot 2 bitstamp 7)))

abbrev pub second_book : ContributorSnapshot
second_book = push_ask 2 three two (push_bid 2 two four (new_snapshot 2 binance 5))

abbrev pub two_books : CombinedSummary
two_books = update_snapshot second_book (update_snapshot first_book (new_combined 2))

-- What the message "binance" gives at the depth 2: 0.062, 7.5, 0.061, 2.5, 0.063, 1.5, 0.064 and 0.5.
abbrev pub binance_book : ContributorSnapshot
binance_book = push_ask 2 (number 4589276106681592316) half (
    push_ask 2 (number 4589204049087554388) (number 4609434218613702656) (
      push_bid 2 (number 4588951847508421640) (number 4612811918334230528) (
        push_bid 2 (number 4589095962696497496) (number 4620130267728707584)
          (new_snapshot 2 binance 9))))

-- What the message "bitstamp" gives at the depth 2: its second bid has no texts.
abbrev pub bitstamp_book : ContributorSnapshot
bitstamp_book = push_ask 2 (number 4589276106681592316) half (
    push_ask 2 (number 4589204049087554388) (number 4609434218613702656) (
      push_bid 2 (number 4589095962696497496) (number 4620130267728707584)
        (new_snapshot 2 bitstamp 9)))
