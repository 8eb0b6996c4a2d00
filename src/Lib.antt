-- ===== src/Lib.antt =====
-- The aggregator of order books (crates/aggserver, crates/aggclient, crates/aggcommon): it reads the
-- books of Binance and Bitstamp from their websockets, combines the latest snapshot of each source and
-- sends a summary of the best prices to its clients.
--
-- How the parts interact: the task of a feed parses each message into a snapshot and publishes it
-- (`BinanceFeed`, `BitstampFeed`); a source task passes the snapshot on to the publisher; the publisher
-- puts it in the slot of its source, makes a summary (`to_proto`) and notifies its watchers. The
-- manager opens a feed for a symbol on the first client's request (its instrument, its sources and its
-- publisher), and shuts it down some time after the last client has left. For each request the service
-- opens the feed and starts a task that sends the publisher's summaries to the client. The process of
-- the server ends by Ctrl-C, which a broadcast channel carries to the server and to the manager. The
-- command-line client (crates/aggclient) prints the summaries of its stream.
--
-- Files and code:
--   Prelude: shared names, `Outcome` (a value, an error or a panic), lists, options and texts.
--   Float: `f64` bit by bit: its order, its subtraction and `parse::<f64>()`.
--   Decimal: the digits of numbers, printed and read; Fixed: `{:.8}` and `{:>10}` for doubles, as the
--     standard library prints them.
--   Address: `SocketAddr::from_str` of the standard library; Config: crates/aggserver/src/config.rs.
--   BTreeMap: `std::collections::BTreeMap` as the code uses it.
--   Sources: crates/aggcommon/src/sources.rs, `SourceId`.
--   Book: crates/aggserver/src/service/model.rs, `ContributorLevels`, `ContributorSnapshot` and
--     `CombinedSummary` with `new` and `update_snapshot`.
--   Keys: the same file, `AskKeyedPrice` and `BidKeyedPrice`.
--   Summary: the same file, `CombinedSummary::to_proto` and `spread_from`.
--   Feed: crates/aggserver/src/service/sources/binance.rs and bitstamp.rs: the parsers are
--     Feed.Binance (`parse_orderbook_update`) and Feed.Bitstamp (`parse_bitstamp_update`); Feed.Task is
--     `subscribe` with `run_feed_loop`, and Feed.Wire the connections and frames of that loop.
--   Publisher: crates/aggserver/src/service/publisher.rs, `Publisher::start` and `local_run`.
--   HashMap: `HashMap` and `DashMap` of the standard library and of dashmap, as lists of entries.
--   Instrument: crates/aggcommon/src/instrument.rs, and `build_instrument_map` of
--     crates/aggserver/src/main.rs.
--   Factory: `SummarySourceFactoryMap` of model.rs, and sources/factories.rs.
--   Manager: crates/aggserver/src/service/manager.rs: `Manager::open`, `remove_feed_if_unused` and
--     `shutdown`, and `Feed::on_subscribe`, `on_unsubscribe` and `shutdown`; Manager.Lifecycle runs them
--     in any order.
--   Relay: the tasks of `start_summary_sources` of manager.rs, next to the task of a feed.
--   Client: `Feed::publish` and `send_with_shutdown` of manager.rs, next to the publisher.
--   Service: crates/aggserver/src/service.rs, the two requests, and crates/aggserver/src/stream.rs.
--   Pipeline: the sources, relays, publisher and clients of one feed together, with the channel of
--     `BACKLOG_SIZE` snapshots between them: each step is that of Relay, Publisher or Client.
--   Usage: the counts of subscriptions of manager.rs, kept by the clients of Pipeline.
--   Closing: `Feed::shutdown` of manager.rs with `Publisher::close` and `wait_complete` of publisher.rs,
--     next to the tasks of Pipeline; Closing.Drained is the loop of `Manager::shutdown` over its feeds.
--   Server: crates/aggserver/src/main.rs and server.rs, crates/aggcommon/src/shutdown.rs and the watcher
--     of `Manager::new`: who gets the signal of a shutdown, with the manager of Manager.
--   Nanos: crates/aggcommon/src/nanos.rs.
--   Viewer: crates/aggclient/src/main.rs and format.rs, the loop over the stream and `DisplaySummary`.
--   Tests: runs at concrete messages, and the theorems at concrete inputs.
--
-- The const generic `N` is an argument `n`. A time in nanoseconds is a natural number, and what a clock
-- shows is an argument. A double has the magnitude of its 64 bits and its sign; its text is read exactly
-- and rounded once, and is printed from its exact value, rounded once to the places asked for. Where a
-- text is walked through it is the list of its code points. There are two kinds of fuel: `places` looks
-- for the leading bit of a double in at most 2100 steps, while no operand has so many binary digits above
-- the 53 that are kept; `digits_within` prints a number `n` with fuel `n + 1`, more than it has digits.
--
-- Parameters: `Json` stands for `serde_json`, `array_push` for `push` of `arrayvec::ArrayVec`,
-- with its documented behaviour as the hypothesis `IsArrayVec`, and `format_duration` for that of
-- `humantime`, of which nothing is assumed, as of `to_string`, the text that `serde_json` makes of
-- a subscription. What a task awaits (a websocket, a timer, a channel, a signal) is an event, and
-- a step takes the event that `select!` takes.
--
-- Not modelled: a snapshot sent between the end of the publisher's loop and the close of its
-- channel, which nobody reads; `to_lowercase` beyond ASCII; the websocket library and the periods
-- of timers, the reading of the command lines by `clap`, the logs, and the connections of `tonic`,
-- of which the server's model only has that it returns or fails.
pub mod Prelude
pub mod Float
pub mod Decimal
pub mod Address
pub mod Config
pub mod Fixed
pub mod BTreeMap
pub mod Sources
pub mod Book
pub mod Keys
pub mod Summary
pub mod Feed
pub mod Publisher
pub mod HashMap
pub mod Instrument
pub mod Factory
pub mod Client
pub mod Relay
pub mod Pipeline
pub mod Usage
pub mod Closing
pub mod Manager
pub mod Service
pub mod Nanos
pub mod Viewer
pub mod Server
pub mod Tests
