-- ===== src/Usage.antt =====
-- The use of a feed: the tasks of its clients, `Feed::publish` of
-- crates/aggserver/src/service/manager.rs, with the counts that they keep by `on_subscribe` and
-- `on_unsubscribe`, next to the other tasks of the feed.
pub mod Clients
pub mod Count
pub mod Kept
use aggbook.Prelude.{
  ℕ, Bool, true, false, not, ◌&&◌, String, Option, none, some, List, [], ◌∷◌, get_elem?, Outcome,
  ◌==◌, if◌then◌else◌,
}
use aggbook.Book.{ContributorSnapshot}
use aggbook.Summary.{Level}
use aggbook.Instrument.{Instrument}
use aggbook.Client as Client
use aggbook.Client.{Client}
use aggbook.Pipeline as Pipeline
use aggbook.Pipeline.{Pipeline, joins, of_client}
use aggbook.Manager as Manager
use aggbook.Manager.{new_feed, on_subscribe, on_unsubscribe, wait, waited}

-- `counts` is the feed as the manager sees it.
pub record Usage (S : Type 0) : Type 0 where
  pub counts : Manager.Feed S
  pub feed : Pipeline

pub data Event : Type 0 where
  of_feed : Pipeline.Event → Event
  -- A task of `on_unsubscribe` comes to its `select!`, and its wait is over.
  waits expires : Event

abbrev pub opened : {S : Type 0} → ℕ → Instrument → List S → ℕ → Usage S
opened n instrument source_tasks k = record {
  counts = new_feed instrument source_tasks;
  feed = Pipeline.opened n k;
}

abbrev pub is_active : Client.Phase → Bool
is_active Client.ended = false
is_active _ = true

module _ {S : Type 0} where
  -- `publish` unsubscribes where it returns.
  abbrev pub on_return : Bool → Bool → Manager.Feed S → Manager.Feed S
  on_return before after s = if before && not after then on_unsubscribe s else s

  abbrev pub on_client :
      ℕ → Client.Action → Option Client → Pipeline → Manager.Feed S → Manager.Feed S
  on_client j a none y s = s
  on_client j a (some c) y s =
      on_return (is_active c.phase)
        (is_active (Client.act y.publisher.watch y.publisher.latest c.phase a c).phase) s

  -- What an action of a task of the feed does to the counts: `publish` begins with `on_subscribe`.
  abbrev pub on_feed : Pipeline.Event → Pipeline → Manager.Feed S → Manager.Feed S
  on_feed joins y s = on_subscribe s
  on_feed (of_client j a) y s = on_client j a (get_elem? y.clients j) y s
  on_feed _ y s = s

  abbrev pub on_expiry : Manager.Feed S → Manager.Feed S
  on_expiry s = if s.waiting == 0 then s else waited s

  module _ (array_push : List Level → Level → Outcome (List Level)) (n : ℕ)
      (parse : ℕ → String → ℕ → Outcome (Option ContributorSnapshot)) where
    unfoldable pub step : Event → Usage S → Usage S
    step (of_feed e) u = record {
      counts = on_feed e u.feed u.counts;
      feed = Pipeline.step array_push n parse e u.feed;
    }
    step waits u = record u { counts = wait u.counts }
    step expires u = record u { counts = on_expiry u.counts }

    unfoldable pub run : List Event → Usage S → Usage S
    unfolding step
    run [] u = u
    run (e ∷ es) u = run es (step e u)
