-- ===== src/Tests/Managers.antt =====
-- Tests of the instruments, of the factories and of the manager with the program's own instrument.
use aggbook.Prelude.{◌≡◌, ◌↔◌, refl, true, String, some, List, [], ◌∷◌, map, get_elem?, ok, err}
use aggbook.Sources.{SourceId, bitstamp, binance}
use aggbook.HashMap.{insert, lookup, remove, insert_all}
use aggbook.Instrument.{Instrument, instruments, new_map, get, SourceSymbol}
use aggbook.Factory.{
  SummarySourceFactoryMap, create_summary_sources, Source, binance_factory, bitstamp_factory,
  new_factory_map,
}
use aggbook.Factory.Laws.{Created, create_summary_sources_iff, started}
use aggbook.Manager.{
  shut, new_feed, Feed, Manager, new_manager, modify, on_subscribe, on_unsubscribe, wait, expire,
  begin_shutdown, drain, open_feed,
}
use aggbook.Manager.Table.{IsLeaving, IsWellFormed}
use aggbook.Manager.Lifecycle.{
  shuts_next, Event, opens, subscribes, unsubscribes, waits, expires, run, run-IsWellFormed,
}
use aggbook.Manager.Use.{run-drain}

abbrev factories : SummarySourceFactoryMap Source
factories = new_factory_map 10

abbrev symbols : List (SourceId × String)
symbols = (bitstamp, "ethbtc") ∷ (binance, "ETHBTC") ∷ []

abbrev twice : List SourceSymbol
twice =
    record { source = bitstamp; symbol = "ethbtc" }
    ∷ record { source = bitstamp; symbol = "ETHBTC" }
    ∷ []

create_summary_sources_iff_example :
    (create_summary_sources factories symbols ≡ ok (map started symbols))
    ↔ Created factories symbols (map started symbols)
create_summary_sources_iff_example =
    create_summary_sources_iff factories symbols (map started symbols)

-- A client comes and goes; before the wait for the removal is over, a second client opens the feed.
abbrev visits : List Event
visits = opens "ETH-BTC" ∷ subscribes 0 ∷ unsubscribes 0 ∷ waits 0 ∷ opens "ETH-BTC" ∷ []

abbrev visited : Manager Source
visited = run instruments factories visits new_manager

abbrev opened : Manager Source
opened = (open_feed (new_map instruments) factories "ETH-BTC" new_manager).1

unknown_runs :
    (open_feed (new_map instruments) factories "DOGE" new_manager).0
    ≡ err "Instrument not found: DOGE"
unfolding open_feed get lookup insert insert_all
unknown_runs = refl

-- If the wait ends before the second client subscribes, that client holds a feed that is shut down.
race_runs :
    (s : Feed Source) × (get_elem?
        (run instruments factories (expires 0 ∷ subscribes 0 ∷ []) visited).store
        0
      ≡ some s)
    × (s.subscriptions ≡ 1)
    × (s.is_shut ≡ true)
unfolding open_feed get lookup insert insert_all create_summary_sources binance_factory
    bitstamp_factory modify on_subscribe on_unsubscribe wait expire remove
race_runs = (_, refl, refl, refl)

run-IsWellFormed_example : IsWellFormed visited
run-IsWellFormed_example = run-IsWellFormed instruments factories visits

abbrev eth_btc : Instrument
eth_btc = record { symbol = "ETH-BTC"; source_mapping = symbols }

run-drain_example :
    let m =
      run instruments factories
        (shuts_next ∷ opens "ETH-BTC" ∷ [])
        (drain (begin_shutdown (run instruments factories (opens "ETH-BTC" ∷ []) new_manager))) in
    (m.feeds ≡ [])
    × IsLeaving m.closing 0 (shut (new_feed eth_btc (map started symbols)))
    × (open_feed (new_map instruments) factories "ETH-BTC" m ≡ (err "Manager is shutting down", m))
unfolding open_feed get lookup insert insert_all create_summary_sources binance_factory
    bitstamp_factory modify drain
run-drain_example =
    run-drain instruments factories (opens "ETH-BTC" ∷ []) (shuts_next ∷ opens "ETH-BTC" ∷ [])
      "ETH-BTC" 0 (shut (new_feed eth_btc (map started symbols))) refl
