-- ===== src/Closing.antt =====
-- The shutdown of one feed: `Feed::shutdown` of crates/aggserver/src/service/manager.rs, with `close`
-- and `wait_complete` of crates/aggserver/src/service/publisher.rs, next to the tasks of the feed. The
-- manager takes a feed out of its table before it shuts it down, so that `shutdown_guard` is free. A
-- step is one action of a task of the feed, of the task that stores the publisher's handle, or of the
-- call.
pub mod Sources
pub mod Sound
pub mod Leaving
pub mod Returning
pub mod Stuck
pub mod Drained
pub mod Blocked
use aggbook.Prelude.{
  ℕ, ◌+◌, Bool, true, false, not, ◌&&◌, String, Option, none, some, List, [], ◌∷◌, get_elem?,
  length, ltb, Outcome, if◌then◌else◌,
}
use aggbook.Book.{ContributorSnapshot}
use aggbook.Summary.{Level}
use aggbook.Feed.Task as Task
use aggbook.Relay as Relay
use aggbook.Client as Client
use aggbook.Pipeline as Pipeline
use aggbook.Pipeline.{Pipeline, of_source, closes, of_client, is_running}

-- Where the call stands: it was not made, it awaits the source task with this place, it awaits the
-- publisher, or it has returned.
pub data Phase : Type 0 where
  uncalled : Phase
  joining : ℕ → Phase
  awaiting returned : Phase

-- `Publisher::handle`: what `start` spawned has not stored it yet, or has, or `wait_complete` has
-- taken it.
pub data Handle : Type 0 where
  absent stored awaited : Handle

-- `told` are the clients that had subscribed when the signal was sent.
pub record Closing : Type 0 where
  pub phase : Phase
  pub handle : Handle
  pub told : ℕ
  pub feed : Pipeline

pub data Event : Type 0 where
  of_feed : Pipeline.Event → Event
  -- The task of `start` stores the handle; the call goes on to its next await, if it can.
  stores goes_on : Event

-- A feed that was just opened, with so many sources.
abbrev pub first_closing : ℕ → ℕ → Closing
first_closing n k = record {
  phase = uncalled;
  handle = absent;
  told = 0;
  feed = Pipeline.opened n k;
}

abbrev pub signalled : Phase → Bool
signalled uncalled = false
signalled _ = true

-- What the task or the relay of a source does on the signal of `feed_shutdown_tx`.
abbrev pub hears_signal : Relay.Event → Bool
hears_signal (Relay.of_task Task.shutdown) = true
hears_signal (Relay.of_relay (Relay.sends Client.shut_down)) = true
hears_signal _ = false

-- What cannot happen yet: the call sends the signals of `feed_shutdown_tx` and of `close` before its
-- first await, and a client that has subscribed later does not hear of it.
abbrev pub held_back : Pipeline.Event → Closing → Bool
held_back (of_source i e) y = hears_signal e && not (signalled y.phase)
held_back (of_client j Client.stops) y = not (ltb j y.told)
held_back (of_client j (Client.sends Client.shut_down)) y = not (ltb j y.told)
held_back closes y = not (signalled y.phase)
held_back _ y = false

abbrev pub has_ended : Relay.Phase → Bool
has_ended Relay.ended = true
has_ended _ = false

-- `wait_complete`: without a handle there is nothing to await.
abbrev pub wait_complete : Handle → Closing → Closing
wait_complete stored y = record y { phase = awaiting; handle = awaited }
wait_complete _ y = record y { phase = returned }

-- The loop over `handles`.
abbrev pub join : ℕ → Option Relay.System → Closing → Closing
join i (some r) y = if has_ended r.relay.phase then record y { phase = joining (i + 1) } else y
join i none y = wait_complete y.handle y

unfoldable pub advance : Phase → Closing → Closing
advance uncalled y = record y { phase = joining 0; told = length y.feed.clients }
advance (joining i) y = join i (get_elem? y.feed.sources i) y
advance awaiting y = if is_running y.feed.publisher.phase then y else record y { phase = returned }
advance returned y = y

abbrev pub store : Handle → Closing → Closing
store absent y = record y { handle = stored }
store _ y = y

module _ (array_push : List Level → Level → Outcome (List Level)) (n : ℕ)
    (parse : ℕ → String → ℕ → Outcome (Option ContributorSnapshot)) where
  unfoldable pub step : Event → Closing → Closing
  step (of_feed e) y =
      if held_back e y then y else record y { feed = Pipeline.step array_push n parse e y.feed }
  step stores y = store y.handle y
  step goes_on y = advance y.phase y

  unfoldable pub run : List Event → Closing → Closing
  unfolding step
  run [] y = y
  run (e ∷ es) y = run es (step e y)
