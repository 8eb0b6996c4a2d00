-- ===== src/Feed/Task.antt =====
-- The task of a feed: `subscribe` and `run_feed_loop` of binance.rs and bitstamp.rs, which differ in
-- the parser, in the message that subscribes to a channel and in the check of the depth. A step is
-- the completion of what the task awaits; `websocket` and timers are events.
pub mod History
use Prim.Native.String.{◌++◌ as append}
use aggbook.Prelude.{
  ℕ, zero, ◌+◌, Bool, true, false, String, Option, some, none, List, [], ◌∷◌, Outcome, ok, err,
  panic, ◌>>=◌, leb, if◌then◌else◌,
}
use aggbook.Book.{ContributorSnapshot}
use aggbook.Feed.{Json}
use aggbook.Feed.Binance.{parse_orderbook_update}
use aggbook.Feed.Bitstamp.{parse_bitstamp_update}

-- The shared part of a feed: the value that it publishes, with how often its watch was notified.
pub record Feed : Type 0 where
  pub latest : Option (Outcome ContributorSnapshot)
  pub watch : ℕ

-- Where the task stands: awaiting a connection, in the loop over messages, sleeping after an error,
-- or ended, by a shutdown or by a panic.
pub data Phase : Type 0 where
  connecting running backoff closed crashed : Phase

pub record Task : Type 0 where
  pub phase : Phase
  pub feed : Feed

pub data Event : Type 0 where
  connected : Event
  -- `connect_async` failed, or the message that subscribes could not be sent.
  connect_failed : String → Event
  -- A text frame, with the time at which it was read.
  message : String → ℕ → Event
  ping_frame other_frame : Event
  read_error : String → Event
  disconnected : Event
  -- The timer for a ping: the ping was sent, or it could not be.
  ping_sent : Event
  ping_failed : String → Event
  backoff_over shutdown : Event

abbrev pub start : Task
start = record { phase = connecting; feed = record { latest = none; watch = 0 } }

-- `latest.store(..)` and `watch_tx.send(())`.
abbrev pub publish : Outcome ContributorSnapshot → Feed → Feed
publish value f = record { latest = some value; watch = f.watch + 1 }

-- `Err(e)` from the loop: the error is published, and the task sleeps.
abbrev pub fail : String → Task → Task
fail e t = record { phase = backoff; feed = publish (err e) t.feed }

-- What the loop does with what the parser gave.
abbrev pub on_parsed : Outcome (Option ContributorSnapshot) → Task → Task
on_parsed (ok (some s)) t = record t { feed = publish (ok s) t.feed }
on_parsed (ok none) t = t
on_parsed (err e) t = fail e t
on_parsed panic t = record t { phase = crashed }

module _ (parse : String → ℕ → Outcome (Option ContributorSnapshot)) where
  -- One event; what the task does not await at its phase leaves it as it is.
  unfoldable pub on_event : Phase → Event → Task → Task
  on_event connecting connected t = record t { phase = running }
  on_event connecting (connect_failed e) t = fail e t
  on_event running (message txt now) t = on_parsed (parse txt now) t
  on_event running (read_error e) t = fail (append "WebSocket error: " e) t
  on_event running disconnected t = fail "WebSocket disconnected." t
  on_event running (ping_failed e) t = fail (append "WebSocket ping error: " e) t
  on_event running shutdown t = record t { phase = closed }
  on_event backoff backoff_over t = record t { phase = connecting }
  on_event backoff shutdown t = record t { phase = closed }
  on_event _ _ t = t

  unfoldable pub step : Event → Task → Task
  unfolding on_event
  step e t = on_event t.phase e t

  unfoldable pub run : List Event → Task → Task
  unfolding step
  run [] t = t
  run (e ∷ es) t = run es (step e t)

-- `BinanceFeed::subscribe`: the depth is checked in the task, which panics at once.
unfoldable pub subscribe_binance : ℕ → Task
subscribe_binance n = if leb n 20 then start else record start { phase = crashed }

abbrev pub binance_parse : Json → ℕ → String → ℕ → Outcome (Option ContributorSnapshot)
binance_parse json n txt now = do s ← parse_orderbook_update json n txt now; ok (some s)

-- `BitstampFeed::subscribe`: the depth is checked in the caller.
unfoldable pub subscribe_bitstamp : ℕ → Outcome Task
subscribe_bitstamp n = if leb n 10 then ok start else panic

abbrev pub bitstamp_parse : Json → ℕ → String → String → ℕ → Outcome (Option ContributorSnapshot)
bitstamp_parse json n channel txt now = parse_bitstamp_update json n txt channel now
