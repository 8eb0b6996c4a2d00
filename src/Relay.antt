-- ===== src/Relay.antt =====
-- The tasks of `start_summary_sources` in crates/aggserver/src/service/manager.rs: each passes the
-- snapshots of one feed on to the publisher. It runs next to the task of the feed; a step is one
-- action of either.
pub mod Feeding
pub mod History
use aggbook.Prelude.{
  ℕ, String, Option, none, some, List, [], ◌∷◌, Outcome, ok, err, panic, ◌==◌, if◌then◌else◌,
}
use aggbook.Book.{ContributorSnapshot}
use aggbook.Feed.Task as Task
use aggbook.Client.{Sending, taken}

-- The task is about to read the latest snapshot, sends it, waits for a change, or has ended.
pub data Phase : Type 0 where
  reading : Phase
  sending : ContributorSnapshot → Phase
  waiting ended : Phase

-- The snapshot that the task is about to send.
abbrev pub pending : Phase → List ContributorSnapshot
pending (sending s) = s ∷ []
pending _ = []

-- `seen` is the version of the feed's watch that the receiver has seen, `forwarded` what the
-- publisher's channel has taken, the latest first.
pub record Relay : Type 0 where
  pub phase : Phase
  pub seen : ℕ
  pub forwarded : List ContributorSnapshot

-- The receiver is made before the first read.
abbrev pub new_relay : Task.Feed → Relay
new_relay f = record { phase = reading; seen = f.watch; forwarded = [] }

pub data Action : Type 0 where
  -- `latest_snapshot()`.
  reads : Action
  sends : Sending → Action
  -- `rx.changed()` returns, if there is a version that was not seen. The signal of a shutdown is not
  -- awaited here.
  changes : Action

-- An error is only logged.
abbrev pub on_read : Option (Outcome ContributorSnapshot) → Relay → Relay
on_read (some (ok s)) r = record r { phase = sending s }
on_read _ r = record r { phase = waiting }

abbrev pub on_change : ℕ → Relay → Relay
on_change watch r = if r.seen == watch then r else record r { phase = reading; seen = watch }

unfoldable pub act : Task.Feed → Phase → Action → Relay → Relay
act f reading reads r = on_read f.latest r
act f (sending s) (sends taken) r = record r { phase = waiting; forwarded = s ∷ r.forwarded }
act f (sending s) (sends _) r = record r { phase = ended }
act f waiting changes r = on_change f.watch r
act f _ _ r = r

pub record System : Type 0 where
  pub task : Task.Task
  pub relay : Relay

abbrev pub first_system : System
first_system = record { task = Task.start; relay = new_relay Task.start.feed }

pub data Event : Type 0 where
  of_task : Task.Event → Event
  of_relay : Action → Event

module _ (parse : String → ℕ → Outcome (Option ContributorSnapshot)) where
  unfoldable pub step : Event → System → System
  unfolding act
  step (of_task e) y = record y { task = Task.step parse e y.task }
  step (of_relay a) y = record y { relay = act y.task.feed y.relay.phase a y.relay }

  unfoldable pub run : List Event → System → System
  unfolding step
  run [] y = y
  run (e ∷ es) y = run es (step e y)
