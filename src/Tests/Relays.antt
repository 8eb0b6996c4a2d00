-- ===== src/Tests/Relays.antt =====
-- Tests of the relay of a feed's snapshots.
use aggbook.Prelude.{ℕ, String, Option, ◌≡◌, refl, some, List, [], ◌∷◌, head?, Outcome}
use aggbook.Book.{ContributorSnapshot}
use aggbook.Feed.Task as Task
use aggbook.Feed.Binance.{parse_orderbook_update}
use aggbook.Client.{taken}
use aggbook.Relay.{reads, sends, changes, first_system, Event, of_task, of_relay, run}
use aggbook.Relay.History.{run-forwarded}
use aggbook.Tests.Sample.{sample_json, binance_book}

abbrev parse : String → ℕ → Outcome (Option ContributorSnapshot)
parse = Task.binance_parse sample_json 2

-- The relay reads before the first message, and passes the message on when it has come.
abbrev passing : List Event
passing =
    of_relay reads
    ∷ of_task Task.connected
    ∷ of_task (Task.message "binance" 9)
    ∷ of_relay changes
    ∷ of_relay reads
    ∷ of_relay (sends taken)
    ∷ []

run-forwarded_example : head? (run parse passing first_system).relay.forwarded ≡ some binance_book
unfolding run Task.step parse_orderbook_update
run-forwarded_example = run-forwarded parse passing binance_book refl refl refl
