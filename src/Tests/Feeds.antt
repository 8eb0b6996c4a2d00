-- ===== src/Tests/Feeds.antt =====
-- Tests of the parsers and of the task of a feed.
use aggbook.Prelude.{
  to_lowercase, ℕ, ◌≡◌, ◌≢◌, ◌↔◌, refl, String, Option, some, none, List, [], ◌∷◌, Outcome, ok, err,
  panic, codes, All,
}
use aggbook.Float.{F64}
use aggbook.Book.{ContributorSnapshot}
use aggbook.Sources.{binance, bitstamp}
use aggbook.Feed.{json_error}
use aggbook.Feed.Entries.{IsSnapshot}
use aggbook.Feed.Binance.{array_at, parse_orderbook_update}
use aggbook.Feed.Binance.Laws as BinanceLaws
use aggbook.Feed.Bitstamp.{parse_bitstamp_update}
use aggbook.Feed.Bitstamp.Laws as BitstampLaws
use aggbook.Feed.Binance.Panics.{PanicsAt, parse_orderbook_update-panic_iff}
use aggbook.Feed.Bitstamp.Message.{IsDataOf, listed}
use aggbook.Feed.Bitstamp.Relevance.{
  parse_bitstamp_update-IsSnapshot, parse_bitstamp_update-none_iff,
}
use aggbook.Feed.Bitstamp.Safety.{parse_bitstamp_update-ne-panic}
use aggbook.Feed.Task.{
  Event, connected, ping_sent, ping_frame, message, read_error, backoff_over, shutdown, start,
  publish, step, run, running, binance_parse,
}
use aggbook.Feed.Task.History.{Seen, run-closed}
use aggbook.Feed.Task as Task
use aggbook.Feed.Wire as Wire
use aggbook.Feed.Wire.{Exchange, text, ping, pong, bitstamp_exchange, first_system}
use aggbook.Feed.Wire.Frames.{IsGreeted, pongs, pings_heard, run-IsGreeted}
use aggbook.Tests.Sample.{Value, sample_json, read, binance_book, bitstamp_book}

binance_runs : parse_orderbook_update sample_json 2 "binance" 9 ≡ ok binance_book
unfolding parse_orderbook_update
binance_runs = refl

-- The parser of Binance fails on what is not JSON, and panics on an entry of numbers.
no_json_runs : parse_orderbook_update sample_json 2 "{" 9 ≡ err json_error
unfolding parse_orderbook_update
no_json_runs = refl

mixed_runs : parse_orderbook_update sample_json 2 "mixed" 9 ≡ panic
unfolding parse_orderbook_update
mixed_runs = refl

subscribed_runs : parse_bitstamp_update sample_json 2 "subscribed" "order_book_ethbtc" 9 ≡ ok none
unfolding parse_bitstamp_update
subscribed_runs = refl

parse_orderbook_update-IsSnapshot_example :
    (v : Value) × (bids : List (F64 × F64)) × (asks : List (F64 × F64)) × (read "binance" ≡ some v)
    × (BinanceLaws.read_entries sample_json
          (BinanceLaws.first_entries sample_json 2 (array_at sample_json v "bids"))
        ≡ ok bids)
    × (BinanceLaws.read_entries sample_json
          (BinanceLaws.first_entries sample_json 2 (array_at sample_json v "asks"))
        ≡ ok asks)
    × IsSnapshot 2 binance 9 bids asks binance_book
parse_orderbook_update-IsSnapshot_example =
    BinanceLaws.parse_orderbook_update-IsSnapshot sample_json 2 "binance" 9 binance_runs

parse_bitstamp_update-ne-panic_example :
    parse_bitstamp_update sample_json 2 "mixed" "order_book_ethbtc" 9 ≢ panic
parse_bitstamp_update-ne-panic_example =
    parse_bitstamp_update-ne-panic sample_json 2 "mixed" "order_book_ethbtc" 9

abbrev parse : String → ℕ → Outcome (Option ContributorSnapshot)
parse = binance_parse sample_json 2

-- A connection, a message, a lost connection, a new one, and a shutdown.
abbrev day : List Event
day =
    connected ∷ message "binance" 9 ∷ read_error "reset" ∷ backoff_over ∷ connected ∷ shutdown ∷ []

run-closed_example : Seen (λ e. e ≡ shutdown) day
unfolding run parse_orderbook_update
run-closed_example = run-closed parse day start (λ e. cc) refl

-- Two connections to Bitstamp, with a ping from either side on the first. The channel stands for the
-- text of the message that subscribes to it.
abbrev beats : List Event
beats = connected ∷ ping_sent ∷ ping_frame ∷ message "{" 9 ∷ backoff_over ∷ connected ∷ []

abbrev exchange : Exchange
exchange = bitstamp_exchange (λ channel. channel) "ETHBTC"

run-IsGreeted_example :
    All (IsGreeted exchange) (Wire.run parse exchange beats first_system).connections
    × (pongs (Wire.run parse exchange beats first_system).connections
        ≡ pings_heard parse exchange beats start)
run-IsGreeted_example = run-IsGreeted parse exchange beats

beats_runs :
    (Wire.run parse exchange beats first_system).connections
    ≡ record {
      url = codes "wss://ws.bitstamp.net";
      written = text (codes "order_book_ethbtc") ∷ [];
    }
      ∷ record {
        url = codes "wss://ws.bitstamp.net";
        written = pong ∷ ping ∷ text (codes "order_book_ethbtc") ∷ [];
      }
      ∷ []
unfolding Wire.run Task.step parse_orderbook_update to_lowercase
beats_runs = refl

-- The parser of Bitstamp passes over the entry of numbers.
bitstamp_runs :
    parse_bitstamp_update sample_json 2 "bitstamp" "order_book_ethbtc" 9 ≡ ok (some bitstamp_book)
unfolding parse_bitstamp_update
bitstamp_runs = refl

parse_bitstamp_update-IsSnapshot_example :
    (v : Value) × (bids : List (F64 × F64)) × (asks : List (F64 × F64)) × (read "bitstamp" ≡ some v)
    × IsDataOf sample_json "order_book_ethbtc" v
    × (BitstampLaws.read_entries sample_json (listed sample_json 2 v "bids") ≡ ok bids)
    × (BitstampLaws.read_entries sample_json (listed sample_json 2 v "asks") ≡ ok asks)
    × IsSnapshot 2 bitstamp 9 bids asks bitstamp_book
parse_bitstamp_update-IsSnapshot_example =
    parse_bitstamp_update-IsSnapshot sample_json 2 "bitstamp" "order_book_ethbtc" 9 bitstamp_runs

parse_bitstamp_update-none_iff_example :
    (parse_bitstamp_update sample_json 2 "subscribed" "order_book_ethbtc" 9 ≡ ok none)
    ↔ ((v : Value) × (read "subscribed" ≡ some v) × ¬ IsDataOf sample_json "order_book_ethbtc" v)
parse_bitstamp_update-none_iff_example =
    parse_bitstamp_update-none_iff sample_json 2 "subscribed" "order_book_ethbtc" 9

parse_orderbook_update-panic_iff_example :
    (parse_orderbook_update sample_json 2 "mixed" 9 ≡ panic)
    ↔ ((v : Value) × (read "mixed" ≡ some v) × PanicsAt sample_json 2 v)
parse_orderbook_update-panic_iff_example = parse_orderbook_update-panic_iff sample_json 2 "mixed" 9
