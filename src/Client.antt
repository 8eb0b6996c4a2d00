-- ===== src/Client.antt =====
-- The task of a client, `Feed::publish` of crates/aggserver/src/service/manager.rs, next to the
-- publisher whose summaries it sends. A step is one action of either: what the task does between two
-- awaits, or what it awaited.
pub mod History
pub mod Changes
use aggbook.Prelude.{ℕ, Option, none, some, List, [], ◌∷◌, Outcome, ◌==◌, if◌then◌else◌}
use aggbook.Summary.{Level, Summary}
use aggbook.Publisher as Publisher
use aggbook.Publisher.{SummaryResult, fine}

-- Where the task stands: it has subscribed, it sends the initial summary, it is about to watch the
-- publisher, it waits for a change, it sends a summary, or it has left and dropped the sender.
pub data Phase : Type 0 where
  subscribed : Phase
  sending_first : Summary → Phase
  unwatched waiting : Phase
  sending : Summary → Phase
  ended : Phase

-- `seen` is the version of the watch that the receiver has seen, `sent` what the channel has taken,
-- the latest first.
pub record Client : Type 0 where
  pub phase : Phase
  pub seen : ℕ
  pub sent : List Summary

abbrev pub new_client : Client
new_client = record { phase = subscribed; seen = 0; sent = [] }

-- How `send_with_shutdown` returns: the channel has taken the item; the feed shuts down; or the
-- client is gone.
pub data Sending : Type 0 where
  taken shut_down dropped : Sending

pub data Action : Type 0 where
  -- `latest_summary()` before the loop, and `watch_latest()`.
  looks watches : Action
  -- `rx.changed()` returns, if there is a version that was not seen.
  changes : Action
  sends : Sending → Action
  -- `shutdown.recv()` in the loop.
  stops : Action

-- What the task does with the latest summary before the loop, and in the loop.
abbrev pub on_initial : SummaryResult → Client → Client
on_initial (fine (some s)) c = record c { phase = sending_first s }
on_initial _ c = record c { phase = unwatched }

abbrev pub on_latest : SummaryResult → Client → Client
on_latest (fine (some s)) c = record c { phase = sending s }
on_latest (fine none) c = record c { phase = waiting }
on_latest _ c = record c { phase = ended }

-- `rx.changed()`: the current version becomes the one that was seen.
abbrev pub on_change : ℕ → SummaryResult → Client → Client
on_change watch latest c =
    if c.seen == watch then c else on_latest latest (record c { seen = watch })

-- `watch` and `latest` are those of the publisher.
unfoldable pub act : ℕ → SummaryResult → Phase → Action → Client → Client
act watch latest subscribed looks c = on_initial latest c
act watch latest (sending_first s) (sends taken) c = record c {
  phase = unwatched;
  sent = s ∷ c.sent;
}
act watch latest (sending_first s) (sends _) c = record c { phase = ended }
act watch latest unwatched watches c = record c { phase = waiting; seen = watch }
act watch latest waiting changes c = on_change watch latest c
act watch latest waiting stops c = record c { phase = ended }
act watch latest (sending s) (sends taken) c = record c { phase = waiting; sent = s ∷ c.sent }
act watch latest (sending s) (sends _) c = record c { phase = ended }
act watch latest _ _ c = c

pub record System : Type 0 where
  pub publisher : Publisher.Publisher
  pub client : Client

pub data Event : Type 0 where
  of_publisher : Publisher.Event → Event
  of_client : Action → Event

module _ (array_push : List Level → Level → Outcome (List Level)) (n : ℕ) where
  pub step : Event → System → System
  unfolding act
  step (of_publisher e) y = record y {
    publisher = Publisher.on_event array_push n y.publisher.phase e y.publisher;
  }
  step (of_client a) y = record y {
    client = act y.publisher.watch y.publisher.latest y.client.phase a y.client;
  }

  unfoldable pub run : List Event → System → System
  unfolding step
  run [] y = y
  run (e ∷ es) y = run es (step e y)
