-- ===== src/Tests/Usages.antt =====
-- Tests of the use of a feed.
use aggbook.Prelude.{
  ℕ, String, ◌≡◌, ◌⊎◌, refl, Option, none, List, [], ◌∷◌, Outcome, ok, false, arith,
}
use aggbook.Book.{ContributorSnapshot}
use aggbook.Client as Client
use aggbook.Pipeline as Pipeline
use aggbook.Pipeline.{joins, of_client}
use aggbook.Sources.{SourceId}
use aggbook.Instrument.{Instrument}
use aggbook.Manager.{Manager, modify, waited, expire, on_subscribe, on_unsubscribe, wait}
use aggbook.Usage.{Usage, Event, of_feed, waits, opened, run}
use aggbook.Usage.Clients.{active}
use aggbook.Usage.Kept.{run-active, expire-active}
use aggbook.Tests.Sample.{push_to}

abbrev parse : ℕ → String → ℕ → Outcome (Option ContributorSnapshot)
parse i txt now = ok none

abbrev eth_btc : Instrument
eth_btc = record { symbol = "ETH-BTC"; source_mapping = [] }

-- A client comes and leaves, and another comes before the wait for the removal has begun, so that it
-- does not call the wait off.
abbrev visits : List Event
visits =
    of_feed joins
    ∷ of_feed (of_client 0 Client.looks)
    ∷ of_feed (of_client 0 Client.watches)
    ∷ of_feed (of_client 0 Client.stops)
    ∷ of_feed joins
    ∷ waits
    ∷ []

abbrev first : Usage SourceId
first = opened 2 eth_btc [] 0

late_wait_runs :
    let u = run (push_to 2) 2 parse visits first in
    (u.counts.subscriptions ≡ 1) × (active u.feed.clients ≡ 1) × (u.counts.waiting ≡ 1)
unfolding run on_subscribe on_unsubscribe wait Client.act Pipeline.step
late_wait_runs = (refl, refl, refl)

run-active_example :
    (run (push_to 2) 2 parse visits first).counts.subscriptions
    ≡ active (run (push_to 2) 2 parse visits first).feed.clients
unfolding run Client.act Pipeline.step
run-active_example = run-active (push_to 2) 2 parse visits eth_btc [] 0 (omega arith)

-- A manager that holds the feed of these visits.
abbrev keeping : Manager SourceId
keeping = record {
  feeds = ("ETH-BTC", 0) ∷ [];
  store = (run (push_to 2) 2 parse visits first).counts ∷ [];
  is_shutting_down = false;
  closing = [];
}

expire-active_example :
    (expire 0 keeping ≡ keeping)
    ⊎ (expire 0 keeping ≡ record keeping { store = modify 0 waited keeping.store })
unfolding run Client.act Pipeline.step
expire-active_example =
    expire-active (push_to 2) 2 parse visits eth_btc [] 0 0 1 keeping Client.new_client
      (omega arith) refl refl (λ e. cc e)
