-- ===== src/Manager.antt =====
-- crates/aggserver/src/service/manager.rs: the manager's table of feeds, and the counts by which a
-- feed that no client uses is removed. A feed is its place in the list of all feeds that were opened.
-- Each definition is what happens between two awaits, under the lock of the table where it is taken.
pub mod Store
pub mod Table
pub mod Unused
pub mod Lifecycle
pub mod Flag
pub mod Shutdown
pub mod Opening
pub mod Use
use Prim.Native.String.{◌++◌ as append}
use text.Mathlib.Text.{◌==◌ as str_eq}
use aggbook.Prelude.{
  ℕ, ◌+◌, ◌-◌, ◌%◌, ◌^◌, Bool, true, false, ◌&&◌, String, Option, none, some, List, [], ◌∷◌, ◌++◌,
  length, get_elem?, set, Outcome, ok, err, panic, ◌>>=◌, ok_or, ◌==◌, if◌then◌else◌,
}
use aggbook.HashMap.{HashMap, insert, lookup, remove}
use aggbook.Instrument.{Instrument, InstrumentMap, get}
use aggbook.Factory.{SummarySourceFactoryMap, create_summary_sources}

-- `usize`, on a target of 64 bits.
abbrev pub usize : ℕ
usize = 2 ^ 64

-- A feed: `is_shut` is that `shutdown` has been sent to it; `spawned` and `waiting` count the tasks
-- of `on_unsubscribe` before and at their `select!`.
pub record Feed (S : Type 0) : Type 0 where
  pub instrument : Instrument
  pub source_tasks : List S
  pub subscriptions : ℕ
  pub spawned : ℕ
  pub waiting : ℕ
  pub is_shut : Bool

abbrev pub new_feed : {S : Type 0} → Instrument → List S → Feed S
new_feed instrument source_tasks = record {
  instrument = instrument;
  source_tasks = source_tasks;
  subscriptions = 0;
  spawned = 0;
  waiting = 0;
  is_shut = false;
}

-- `closing` are the feeds that `shutdown` has taken out of the table and has not yet shut down.
pub record Manager (S : Type 0) : Type 0 where
  pub feeds : HashMap String ℕ
  pub store : List (Feed S)
  pub is_shutting_down : Bool
  pub closing : List ℕ

abbrev pub new_manager : {S : Type 0} → Manager S
new_manager = record { feeds = []; store = []; is_shutting_down = false; closing = [] }

-- The places of the feeds of a table.
abbrev pub places : HashMap String ℕ → List ℕ
places [] = []
places ((k, f) ∷ feeds) = f ∷ places feeds

module _ {S : Type 0} where
  -- What a method does to the feed at a place.
  unfoldable pub modify : ℕ → (Feed S → Feed S) → List (Feed S) → List (Feed S)
  modify f g store = elim (get_elem? store f) [ none ↦ store | some s ↦ set store f (g s) ]

  -- `Feed::shutdown`.
  abbrev pub shut : Feed S → Feed S
  shut s = record s { is_shut = true }

  -- `Feed::on_subscribe`: the first subscriber calls off the removals that wait.
  unfoldable pub on_subscribe : Feed S → Feed S
  on_subscribe s =
      if s.subscriptions == 0
      then record s { subscriptions = (s.subscriptions + 1) % usize; waiting = 0 }
      else record s { subscriptions = (s.subscriptions + 1) % usize }

  -- `Feed::on_unsubscribe`: the last one spawns a task that is to remove the feed.
  unfoldable pub on_unsubscribe : Feed S → Feed S
  on_unsubscribe s =
      if s.subscriptions == 1
      then record s { subscriptions = 0; spawned = s.spawned + 1 }
      else record s { subscriptions = (s.subscriptions + usize - 1) % usize }

  -- A spawned task comes to its `select!`.
  unfoldable pub wait : Feed S → Feed S
  wait s =
      if s.spawned == 0 then s else record s { spawned = s.spawned - 1; waiting = s.waiting + 1 }

  -- The wait is over, by the grace period or the shutdown of the manager.
  abbrev pub waited : Feed S → Feed S
  waited s = record s { waiting = s.waiting - 1 }

  -- `remove_feed_if_unused`, for the feed `s` at the place `f`.
  pub remove_feed_if_unused : ℕ → Feed S → Manager S → Manager S
  unfolding modify
  remove_feed_if_unused f s m = elim (lookup str_eq s.instrument.symbol m.feeds) [
    | none ↦ m
    | some current ↦
        if (current == f) && (s.subscriptions == 0)
        then record m {
          feeds = remove str_eq s.instrument.symbol m.feeds;
          store = modify f shut m.store;
        }
        else m
  ]

  -- The task of `on_unsubscribe` after its `select!`.
  unfoldable pub expire : ℕ → Manager S → Manager S
  unfolding remove_feed_if_unused
  expire f m = elim (get_elem? m.store f) [
    | none ↦ m
    | some s ↦
        if s.waiting == 0
        then m
        else remove_feed_if_unused f (waited s) (record m { store = modify f waited m.store })
  ]

  -- `Manager::shutdown`: first the flag; then, with the lock, the table is emptied; then the feeds that
  -- were in it are shut down one after the other, the next when `Feed::shutdown` of the one before has
  -- returned.
  abbrev pub begin_shutdown : Manager S → Manager S
  begin_shutdown m = record m { is_shutting_down = true }

  unfoldable pub drain : Manager S → Manager S
  drain m =
      if m.is_shutting_down
      then record m { feeds = []; closing = m.closing ++ places m.feeds }
      else m

  abbrev pub shut_at : List ℕ → Manager S → Manager S
  shut_at [] m = m
  shut_at (f ∷ fs) m = record m { closing = fs; store = modify f shut m.store }

  abbrev pub shut_next : Manager S → Manager S
  shut_next m = shut_at m.closing m

  -- `Manager::open`, in the table of the instruments and that of the factories.
  module _ (instruments : InstrumentMap) (factories : SummarySourceFactoryMap S) where
    abbrev pub make_feed : String → Outcome (Feed S)
    make_feed symbol = do
      instrument ← ok_or (append "Instrument not found: " symbol) (get symbol instruments)
      source_tasks ← create_summary_sources factories instrument.source_mapping
      ok (new_feed instrument source_tasks)

    abbrev pub insert_feed : String → Outcome (Feed S) → Manager S → Outcome ℕ × Manager S
    insert_feed symbol (ok s) m = (
      ok (length m.store),
      record m { feeds = insert str_eq symbol (length m.store) m.feeds; store = m.store ++ s ∷ [] },
    )
    insert_feed symbol (err e) m = (err e, m)
    insert_feed symbol panic m = (panic, m)

    unfoldable pub open_feed : String → Manager S → Outcome ℕ × Manager S
    open_feed symbol m =
        if m.is_shutting_down
        then (err "Manager is shutting down", m)
        else elim (lookup str_eq symbol m.feeds) [
          | some f ↦ (ok f, m)
          | none ↦ insert_feed symbol (make_feed symbol) m
        ]
