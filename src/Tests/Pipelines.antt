-- ===== src/Tests/Pipelines.antt =====
-- Tests of a whole feed.
use aggbook.Prelude.{
  ℕ, String, ◌≡◌, refl, Option, some, none, List, [], ◌∷◌, ◌++◌, Outcome, ok, All, arith, false,
}
use aggbook.Book.{ContributorSnapshot, new_combined, update_snapshot, push}
use aggbook.Feed.Task as Task
use aggbook.Feed.Binance.{parse_orderbook_update}
use aggbook.Relay as Relay
use aggbook.Publisher as Publisher
use aggbook.Publisher.{fine}
use aggbook.Client as Client
use aggbook.Summary.{Summary, to_proto}
use aggbook.Pipeline.{Pipeline, Event, of_source, receives, closes, joins, of_client, opened, run}
use aggbook.Pipeline.Order.{InOrder}
use aggbook.Pipeline.History.{Received, run-InOrder}
use aggbook.Pipeline.Delivery.{run-delivers}
use aggbook.Pipeline.Turns.{waiting_source, waiting_client, relay_turn, client_turn}
use aggbook.Tests.Sample.{sample_json, push_to, binance_book}

abbrev parse : ℕ → String → ℕ → Outcome (Option ContributorSnapshot)
parse i = Task.binance_parse sample_json 2

-- A client comes, a message passes through, and the feed is closed.
abbrev visit : List Event
visit =
    of_source 0 (Relay.of_relay Relay.reads)
      ∷ of_source 0 (Relay.of_task Task.connected)
      ∷ joins
      ∷ of_client 0 Client.looks
      ∷ of_client 0 Client.watches
      ∷ relay_turn 0 "binance" 9
    ++ receives ∷ client_turn 0
    ++ closes ∷ []

abbrev summary_of : Outcome Summary → Summary
summary_of (ok m) = m
summary_of _ = record {
  spread = record { negative = false; magnitude = 0 };
  bids = [];
  asks = [];
  arrival_time = 0;
}

abbrev first_summary : Summary
first_summary = summary_of (to_proto (push_to 2) 2 (update_snapshot binance_book (new_combined 2)))

visit_runs :
    (run (push_to 2) 2 parse visit (opened 2 1)).clients
    ≡ waiting_client 1 (first_summary ∷ []) ∷ []
unfolding run Relay.step Relay.act Task.step Client.act Publisher.on_event parse_orderbook_update
    to_proto update_snapshot push
visit_runs = refl

run-InOrder_example :
    (ss : List ContributorSnapshot) × All (Received parse visit) ss
    × All
        (λ c. InOrder (push_to 2) 2 ss c.sent)
        (run (push_to 2) 2 parse visit (opened 2 1)).clients
run-InOrder_example = run-InOrder (push_to 2) 2 parse visit 1

abbrev ready : Pipeline
ready = record {
  sources = waiting_source (record { latest = none; watch = 0 }) 0 [] ∷ [];
  queue = [];
  publisher = Publisher.start 2;
  clients = waiting_client 0 [] ∷ [];
}

run-delivers_example :
    run (push_to 2) 2 parse (relay_turn 0 "binance" 9 ++ receives ∷ client_turn 0) ready ≡ record {
      sources =
          waiting_source
            (record { latest = some (ok binance_book); watch = 1 })
            1
            (binance_book ∷ [])
          ∷ [];
      queue = [];
      publisher =
          Publisher.publish (fine (some first_summary)) (record (Publisher.start 2) {
            combined = update_snapshot binance_book (new_combined 2);
          });
      clients = waiting_client 1 (first_summary ∷ []) ∷ [];
    }
unfolding parse_orderbook_update to_proto update_snapshot
run-delivers_example =
    run-delivers (push_to 2) 2 parse 0 0 "binance" 9 0 0 binance_book first_summary
      (record { latest = none; watch = 0 }) [] [] ready refl (omega arith) refl (omega arith) refl
      refl refl refl
