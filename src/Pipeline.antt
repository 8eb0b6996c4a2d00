-- ===== src/Pipeline.antt =====
-- A whole feed as crates/aggserver/src/service/manager.rs and publisher.rs put it together: the tasks
-- of its sources with their relays, the channel to the publisher, the publisher, and the tasks of its
-- clients. A step is one action of one of them.
pub mod Order
pub mod Sound
pub mod History
pub mod Turns
pub mod Delivery
use aggbook.Prelude.{
  ℕ, Bool, true, false, not, ◌&&◌, String, Option, none, some, List, [], ◌∷◌, ◌++◌, length,
  get_elem?, set, replicate, Outcome, ltb, if◌then◌else◌,
}
use aggbook.Book.{ContributorSnapshot}
use aggbook.Summary.{Level}
use aggbook.Feed.Task as Task
use aggbook.Relay as Relay
use aggbook.Publisher as Publisher
use aggbook.Publisher.{Publisher}
use aggbook.Client as Client
use aggbook.Client.{Client, new_client}

-- `BACKLOG_SIZE`.
abbrev pub backlog_size : ℕ
backlog_size = 100

-- `queue` is what the publisher's channel holds, the oldest first.
pub record Pipeline : Type 0 where
  pub sources : List Relay.System
  pub queue : List ContributorSnapshot
  pub publisher : Publisher
  pub clients : List Client

pub data Event : Type 0 where
  -- The task or the relay of the source with this place.
  of_source : ℕ → Relay.Event → Event
  -- `source_rx.recv()` of the publisher, and the signal of its `close`.
  receives closes : Event
  -- A client subscribes, and the task of the client with this place goes on.
  joins : Event
  of_client : ℕ → Client.Action → Event

-- The tasks of a feed that was just opened, one for each of its sources.
abbrev pub opened : ℕ → ℕ → Pipeline
opened n k = record {
  sources = replicate k Relay.first_system;
  queue = [];
  publisher = Publisher.start n;
  clients = [];
}

abbrev pub is_running : Publisher.Phase → Bool
is_running Publisher.running = true
is_running _ = false

-- The publisher's channel takes a snapshot while it has room and the publisher's loop goes on; it
-- fails when the loop is over.
abbrev pub can_happen : Relay.Event → Pipeline → Bool
can_happen (Relay.of_relay (Relay.sends Client.taken)) y =
    is_running y.publisher.phase && ltb (length y.queue) backlog_size
can_happen (Relay.of_relay (Relay.sends Client.dropped)) y = not (is_running y.publisher.phase)
can_happen _ y = true

-- What an action of a relay puts into the channel.
abbrev pub passed : Relay.Event → Relay.Phase → List ContributorSnapshot
passed (Relay.of_relay (Relay.sends Client.taken)) p = Relay.pending p
passed _ p = []

-- A relay's action, on the source that has this place.
abbrev pub on_source :
    (String → ℕ → Outcome (Option ContributorSnapshot))
    → ℕ
    → Relay.Event
    → Option Relay.System
    → Pipeline
    → Pipeline
on_source parse i e none y = y
on_source parse i e (some r) y =
    if can_happen e y
    then record y {
      sources = set y.sources i (Relay.step parse e r);
      queue = y.queue ++ passed e r.relay.phase;
    }
    else y

abbrev pub on_client : ℕ → Client.Action → Option Client → Pipeline → Pipeline
on_client j a none y = y
on_client j a (some c) y = record y {
  clients = set y.clients j (Client.act y.publisher.watch y.publisher.latest c.phase a c);
}

module _ (array_push : List Level → Level → Outcome (List Level)) (n : ℕ) where
  abbrev pub on_receive : Publisher.Phase → List ContributorSnapshot → Pipeline → Pipeline
  on_receive Publisher.running (s ∷ q) y = record y {
    queue = q;
    publisher =
        Publisher.on_event array_push n Publisher.running (Publisher.snapshot s) y.publisher;
  }
  on_receive _ _ y = y

  module _ (parse : ℕ → String → ℕ → Outcome (Option ContributorSnapshot)) where
    unfoldable pub step : Event → Pipeline → Pipeline
    step (of_source i e) y = on_source (parse i) i e (get_elem? y.sources i) y
    step receives y = on_receive y.publisher.phase y.queue y
    step closes y = record y {
      publisher = Publisher.on_event array_push n y.publisher.phase Publisher.close y.publisher;
    }
    step joins y = record y { clients = y.clients ++ new_client ∷ [] }
    step (of_client j a) y = on_client j a (get_elem? y.clients j) y

    unfoldable pub run : List Event → Pipeline → Pipeline
    unfolding step
    run [] y = y
    run (e ∷ es) y = run es (step e y)
