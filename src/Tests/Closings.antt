-- ===== src/Tests/Closings.antt =====
-- Tests of the shutdown of a feed.
use aggbook.Prelude.{
  get_elem?, ℕ, zero, suc, String, ◌≡◌, ◌≢◌, refl, subst, Option, some, none, List, [], ◌∷◌,
  Outcome, ok, arith,
}
use aggbook.Book.{ContributorSnapshot}
use mathlib.Core.Option.{some-injective}
use aggbook.Feed.Task as Task
use aggbook.Relay as Relay
use aggbook.Publisher as Publisher
use aggbook.Publisher.{running}
use aggbook.Pipeline as Pipeline
use aggbook.Pipeline.{Pipeline, of_source, closes}
use aggbook.Pipeline.Turns.{waiting_source, waiting_client}
use aggbook.Closing.{
  uncalled, returned, stored, Closing, Event, of_feed, goes_on, advance, first_closing, run,
}
use aggbook.Closing.Sound.{AllJoined, run-AllJoined}
use aggbook.Closing.Stuck.{run-ne-returned}
use aggbook.Closing.Leaving.{CanEnd, AllCanEnd}
use aggbook.Closing.Returning.{winding_up, run-returned}
use aggbook.Closing.Drained as Drained
use aggbook.Closing.Drained.{at}
use aggbook.Closing.Blocked.{run-uncalled}
use aggbook.Tests.Sample.{sample_json, push_to, binance_book}

abbrev parse : ℕ → String → ℕ → Outcome (Option ContributorSnapshot)
parse i = Task.binance_parse sample_json 2

-- The feed's task ends by the signal before the relay has taken up the latest snapshot.
abbrev busy : Pipeline
busy = record {
  sources = waiting_source (record { latest = some (ok binance_book); watch = 1 }) 0 [] ∷ [];
  queue = [];
  publisher = Publisher.start 2;
  clients = waiting_client 0 [] ∷ [];
}

abbrev closing_busy : Closing
closing_busy = record { phase = uncalled; handle = stored; told = 0; feed = busy }

abbrev winds_up : List Event
winds_up = goes_on ∷ of_feed (of_source 0 (Relay.of_task Task.shutdown)) ∷ winding_up 0 1

winds_up_runs : (run (push_to 2) 2 parse winds_up closing_busy).phase ≡ returned
unfolding run advance Pipeline.step Relay.step Relay.act Task.step Publisher.on_event
winds_up_runs = refl

run-AllJoined_example :
    let y = run (push_to 2) 2 parse winds_up closing_busy in
    AllJoined y.feed × (y.feed.publisher.phase ≢ running)
run-AllJoined_example =
    run-AllJoined (push_to 2) 2 parse winds_up closing_busy refl refl winds_up_runs

-- The feed's task ends before the relay has taken up anything.
abbrev stuck_source : Relay.System
stuck_source = record {
  task = record { phase = Task.closed; feed = record { latest = none; watch = 0 } };
  relay = record { phase = Relay.waiting; seen = 0; forwarded = [] };
}

run-ne-returned_example :
    (run (push_to 2) 2 parse winds_up (record {
      phase = uncalled;
      handle = stored;
      told = 0;
      feed = record busy { sources = stuck_source ∷ [] };
    })).phase
    ≢ returned
run-ne-returned_example =
    run-ne-returned (push_to 2) 2 parse winds_up 0 stuck_source
      (record {
        phase = uncalled;
        handle = stored;
        told = 0;
        feed = record busy { sources = stuck_source ∷ [] };
      })
      (record { task_closed = refl; relay_waiting = refl; all_seen = refl }) refl tt

busy-AllCanEnd : AllCanEnd 0 busy
busy-AllCanEnd zero r h e =
    subst (λ (r : Relay.System). CanEnd r.relay.phase r.task.feed r.relay) (some-injective _ _ e)
      ((binance_book, refl), λ e. omega (arith, e))
busy-AllCanEnd (suc j) r h e = cc

run-returned_example :
    (run (push_to 2) 2 parse (goes_on ∷ winding_up 0 1) closing_busy).phase ≡ returned
run-returned_example = run-returned (push_to 2) 2 parse closing_busy refl refl busy-AllCanEnd

-- `wait_complete` before the handle is stored: the call returns while the publisher still runs.
early_runs :
    let y = run (push_to 2) 2 parse (goes_on ∷ goes_on ∷ []) (first_closing 2 0) in
    (y.phase ≡ returned) × (y.feed.publisher.phase ≡ running)
unfolding run advance
early_runs = (refl, refl)

-- Two feeds of a manager that shuts down, the first of them with a source that does not end.
abbrev stuck_feed : Closing
stuck_feed = record {
  phase = uncalled;
  handle = stored;
  told = 0;
  feed = record busy { sources = stuck_source ∷ [] };
}

abbrev shuts_down : List Drained.Event
shuts_down = at 0 goes_on ∷ at 0 goes_on ∷ at 1 goes_on ∷ at 1 goes_on ∷ []

run-uncalled_example :
    (z : Closing) × (get_elem?
        (Drained.run (push_to 2) 2 (λ k. parse) shuts_down (stuck_feed ∷ closing_busy ∷ []))
        1
      ≡ some z)
    × (z.phase ≡ uncalled)
run-uncalled_example =
    run-uncalled (push_to 2) 2 (λ k. parse) shuts_down 0 1 (stuck_feed ∷ closing_busy ∷ [])
      stuck_feed closing_busy (omega arith) refl
      (record {
        place = 0;
        source = stuck_source;
        stuck = record { task_closed = refl; relay_waiting = refl; all_seen = refl };
        there = refl;
        before = tt;
      })
      refl refl
