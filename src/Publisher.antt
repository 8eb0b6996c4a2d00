-- ===== src/Publisher.antt =====
-- crates/aggserver/src/service/publisher.rs: the task of a publisher, `local_run`, between the
-- snapshots of the sources and the watchers of the summary. A step is what `select!` takes next.
pub mod History
pub mod Best
pub mod Progress
use aggbook.Prelude.{ℕ, ◌+◌, Option, none, some, List, [], ◌∷◌, Outcome, ok, err, panic}
use aggbook.Book.{ContributorSnapshot, CombinedSummary, new_combined, update_snapshot}
use aggbook.Summary.{Level, Summary, to_proto}

pub data SummaryError : Type 0 where
  shutdown : SummaryError

pub data SummaryResult : Type 0 where
  fine : Option Summary → SummaryResult
  failed : SummaryError → SummaryResult

-- The task is in its loop, has left it, or has panicked.
pub data Phase : Type 0 where
  running closed crashed : Phase

-- The summary that the task combines, what the publisher has stored, and how often it has notified
-- the watchers.
pub record Publisher : Type 0 where
  pub phase : Phase
  pub combined : CombinedSummary
  pub latest : SummaryResult
  pub watch : ℕ

pub data Event : Type 0 where
  -- A snapshot from `source_rx`.
  snapshot : ContributorSnapshot → Event
  -- The signal that `close` sends.
  close : Event

abbrev pub start : ℕ → Publisher
start n = record { phase = running; combined = new_combined n; latest = fine none; watch = 0 }

-- `latest.store(..)` and `latest_channel.send(())`.
abbrev pub publish : SummaryResult → Publisher → Publisher
publish value p = record p { latest = value; watch = p.watch + 1 }

abbrev pub on_summary : Outcome Summary → Publisher → Publisher
on_summary (ok s) p = publish (fine (some s)) p
on_summary (err _) p = record p { phase = crashed }
on_summary panic p = record p { phase = crashed }

module _ (array_push : List Level → Level → Outcome (List Level)) (n : ℕ) where
  abbrev pub on_snapshot : ContributorSnapshot → Publisher → Publisher
  on_snapshot s p =
      let c = update_snapshot s p.combined in
      on_summary (to_proto array_push n c) (record p { combined = c })

  unfoldable pub on_event : Phase → Event → Publisher → Publisher
  on_event running (snapshot s) p = on_snapshot s p
  on_event running close p = record (publish (failed shutdown) p) { phase = closed }
  on_event _ _ p = p

  unfoldable pub run : List Event → Publisher → Publisher
  unfolding on_event to_proto update_snapshot
  run [] p = p
  run (e ∷ es) p = run es (on_event p.phase e p)
