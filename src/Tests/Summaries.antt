-- ===== src/Tests/Summaries.antt =====
-- Tests of the summary that is sent.
use aggbook.Prelude.{◌≡◌, refl, Option, ok, panic, [], ◌∷◌, arith}
use aggbook.Book.{push, update_snapshot, new_combined, new_snapshot, push_bid}
use aggbook.Sources.{bitstamp, binance}
use aggbook.Float.{sub}
use aggbook.Keys.{new_ask, new_bid}
use aggbook.Keys.Order.{ask_key, bid_key}
use aggbook.Summary.{Level, Summary, to_proto}
use aggbook.Summary.Best.{IsBest}
use aggbook.Summary.Collect.Gather.{HasRoom}
use aggbook.Summary.Visit.{latest_arrival}
use aggbook.Summary.Proto.{all_bids, all_asks, to_proto-IsBest, to_proto-total}
use aggbook.Summary.Spread.{Leads, IsSpread, to_proto-IsSpread}
use aggbook.Summary.Distinct.{HasDistinctPrices, to_proto-total_distinct}
use aggbook.Tests.Sample.{
  push_to, push_to-IsArrayVec, first_book, second_book, two_books, half, one, two, three, four,
}

-- The bids of 2.0 come first, the greater amount before the smaller, then the bid of 1.0; the spread
-- is 3.0 less 2.0, and the time is the later one.
abbrev sent_summary : Summary
sent_summary = record {
  spread = one;
  bids =
      record { exchange = "binance"; price = two; amount = four }
      ∷ record { exchange = "bitstamp"; price = two; amount = one }
      ∷ record { exchange = "bitstamp"; price = one; amount = half }
      ∷ [];
  asks =
      record { exchange = "binance"; price = three; amount = two }
      ∷ record { exchange = "bitstamp"; price = four; amount = one }
      ∷ [];
  arrival_time = 7;
}

two_books_run : to_proto (push_to 2) 2 two_books ≡ ok sent_summary
unfolding to_proto update_snapshot push sub
two_books_run = refl

-- Two sources at one price overflow an array for one level.
overflow_runs :
    to_proto (push_to 1) 1 (
      update_snapshot
        (push_bid 1 two one (new_snapshot 1 bitstamp 1))
        (update_snapshot (push_bid 1 two one (new_snapshot 1 binance 1)) (new_combined 1)))
    ≡ panic
unfolding to_proto update_snapshot push
overflow_runs = refl

to_proto-IsBest_example :
    IsBest bid_key 2 (all_bids two_books) sent_summary.bids
    × IsBest ask_key 2 (all_asks two_books) sent_summary.asks
    × (sent_summary.arrival_time ≡ latest_arrival two_books.sources)
to_proto-IsBest_example =
    to_proto-IsBest 2 (push_to 2) (push_to-IsArrayVec 2) two_books two_books_run

to_proto-IsSpread_example :
    (bid : Option Level) × (ask : Option Level) × Leads bid_key bid (all_bids two_books)
    × Leads ask_key ask (all_asks two_books)
    × IsSpread bid ask sent_summary.spread
to_proto-IsSpread_example =
    to_proto-IsSpread 2 (push_to 2) (push_to-IsArrayVec 2) two_books (omega arith) two_books_run

two_books-HasRoom : HasRoom bid_key 2 (all_bids two_books) × HasRoom ask_key 2 (all_asks two_books)
unfolding update_snapshot push new_bid new_ask
two_books-HasRoom = (λ q. ground arith, λ q. ground arith)

two_books-HasDistinctPrices : HasDistinctPrices first_book × HasDistinctPrices second_book
unfolding push new_bid new_ask
two_books-HasDistinctPrices = (
  record { bids = λ q. ground arith; asks = λ q. ground arith },
  record { bids = λ q. ground arith; asks = λ q. ground arith },
)

to_proto-total_example : (s : Summary) × (to_proto (push_to 2) 2 two_books ≡ ok s)
unfolding update_snapshot push
to_proto-total_example =
    to_proto-total 2 (push_to 2) (push_to-IsArrayVec 2) two_books two_books-HasRoom.0
      two_books-HasRoom.1 (refl, (refl, (refl, tt))) (refl, (refl, tt))

to_proto-total_distinct_example : (s : Summary) × (to_proto (push_to 2) 2 two_books ≡ ok s)
unfolding update_snapshot push
to_proto-total_distinct_example =
    to_proto-total_distinct 2 (push_to 2) (push_to-IsArrayVec 2) two_books (omega arith)
      (two_books-HasDistinctPrices.0, (two_books-HasDistinctPrices.1, tt))
      (refl, (refl, (refl, tt))) (refl, (refl, tt))
