-- ===== src/Tests/Publishing.antt =====
-- Tests of the publisher.
use aggbook.Prelude.{some, ◌≡◌, refl, List, [], ◌∷◌, map, inl, arith}
use aggbook.Book.{push}
use aggbook.Keys.{new_ask, new_bid}
use aggbook.Feed.Binance.{parse_orderbook_update}
use aggbook.Summary.Distinct.{HasDistinctPrices}
use aggbook.Publisher.{Event, snapshot, fine, running, start, run}
use aggbook.Publisher.History.{HasTaken, run-HasTaken}
use aggbook.Publisher.Best.{IsSummary, run-IsSummary}
use aggbook.Summary.{Summary}
use aggbook.Book.{ContributorSnapshot}
use aggbook.Publisher.Progress.{IsRead, run-IsRead}
use aggbook.Tests.Sample.{
  push_to, push_to-IsArrayVec, sample_json, first_book, second_book, binance_book,
}

abbrev both : List Event
both = snapshot first_book ∷ snapshot second_book ∷ []

both_runs : (run (push_to 2) 2 both (start 2)).phase ≡ running
unfolding run push
both_runs = refl

run-HasTaken_example : HasTaken (push_to 2) 2 both (start 2) (run (push_to 2) 2 both (start 2))
run-HasTaken_example = run-HasTaken (push_to 2) 2 both (start 2) refl both_runs

binance_book-IsRead : IsRead sample_json 2 binance_book
unfolding parse_orderbook_update
binance_book-IsRead = inl ("binance", 9, refl)

binance_book-HasDistinctPrices : HasDistinctPrices binance_book
unfolding push new_bid new_ask
binance_book-HasDistinctPrices = record { bids = λ q. ground arith; asks = λ q. ground arith }

run-IsRead_example :
    (run (push_to 2) 2 (map snapshot (binance_book ∷ binance_book ∷ [])) (start 2)).phase ≡ running
run-IsRead_example =
    run-IsRead 2 (push_to 2) (push_to-IsArrayVec 2) sample_json (binance_book ∷ binance_book ∷ [])
      (omega arith)
      (
        (binance_book-IsRead, binance_book-HasDistinctPrices),
        ((binance_book-IsRead, binance_book-HasDistinctPrices), tt),
      )

-- The older book of Bitstamp is forgotten.
abbrev books : List ContributorSnapshot
books = first_book ∷ second_book ∷ first_book ∷ []

books_runs : (run (push_to 2) 2 (map snapshot books) (start 2)).phase ≡ running
unfolding run push
books_runs = refl

run-IsSummary_example :
    (m : Summary) × ((run (push_to 2) 2 (map snapshot books) (start 2)).latest ≡ fine (some m))
    × ((run (push_to 2) 2 (map snapshot books) (start 2)).watch ≡ 3)
    × IsSummary 2 (push_to 2) (push_to-IsArrayVec 2) books m
run-IsSummary_example =
    run-IsSummary 2 (push_to 2) (push_to-IsArrayVec 2) first_book (second_book ∷ first_book ∷ [])
      books_runs
