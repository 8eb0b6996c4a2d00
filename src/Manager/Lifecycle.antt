-- ===== src/Manager/Lifecycle.antt =====
-- The manager after any sequence of calls: clients that open, subscribe and unsubscribe, waits that
-- end, and the shutdown.
use text.Mathlib.Text.{◌==◌ as str_eq}
use aggbook.Prelude.{
  inl, ℕ, ◌≡◌, refl, ap, sym, ◌∙◌, Bool, true, false, String, Option, none, some, List, [], ◌∷◌,
  Outcome, ok, err, panic, >>=-eq-ok, ok-injective, ok_or, ok_or-eq-ok, if◌then◌else◌,
}
use aggbook.HashMap.{lookup}
use Prim.Native.String.{◌++◌ as append}
use aggbook.Instrument.{Instrument, new_map, get}
use aggbook.Instrument.Laws.{get-symbol}
use aggbook.Factory.{SummarySourceFactoryMap, create_summary_sources}
use aggbook.Manager.{
  Feed, new_feed, Manager, new_manager, modify, on_subscribe, on_unsubscribe, wait, expire,
  begin_shutdown, drain, shut_next, make_feed, insert_feed, open_feed,
}
use aggbook.Manager.Table.{IsWellFormed, modify-IsWellFormed}
use aggbook.Manager.Table.Insert.{insert-IsWellFormed}
use aggbook.Manager.Unused.{
  on_subscribe-IsQuiet, on_unsubscribe-IsQuiet, wait-IsQuiet, expire-IsWellFormed,
}
use aggbook.Manager.Shutdown.{drain-IsWellFormed, shut_next-IsWellFormed}

-- A call, or the end of a wait, with the place of the feed that it is about.
pub data Event : Type 0 where
  opens : String → Event
  subscribes unsubscribes waits expires : ℕ → Event
  begins_shutdown drains shuts_next : Event

module _ {S : Type 0} (is : List Instrument) (factories : SummarySourceFactoryMap S) where
  abbrev pub step : Event → Manager S → Manager S
  step (opens symbol) m = (open_feed (new_map is) factories symbol m).1
  step (subscribes f) m = record m { store = modify f on_subscribe m.store }
  step (unsubscribes f) m = record m { store = modify f on_unsubscribe m.store }
  step (waits f) m = record m { store = modify f wait m.store }
  step (expires f) m = expire f m
  step begins_shutdown m = begin_shutdown m
  step drains m = drain m
  step shuts_next m = shut_next m

  abbrev pub run : List Event → Manager S → Manager S
  run [] m = m
  run (e ∷ es) m = run es (step e m)

  make_feed-new :
      (symbol : String) {s : Feed S}
      → make_feed (new_map is) factories symbol ≡ ok s
      → (s.instrument.symbol ≡ symbol) × (s.is_shut ≡ false)
  make_feed-new symbol e =
      let (i, h, first) =
        >>=-eq-ok (ok_or (append "Instrument not found: " symbol) (get symbol (new_map is))) _ e in
      let (tasks, _, second) =
        >>=-eq-ok (create_summary_sources factories i.source_mapping)
          (λ tasks. ok (new_feed i tasks)) first in
      let new : new_feed i tasks ≡ _ = ok-injective second in
      (
        ap (λ (s : Feed S). s.instrument.symbol) (sym new)
            ∙ get-symbol symbol is (ok_or-eq-ok _ (get symbol (new_map is)) h),
        ap (λ (s : Feed S). s.is_shut) (sym new),
      )

  insert_feed-IsWellFormed :
      (symbol : String) (m : Manager S) (o : Outcome (Feed S))
      → make_feed (new_map is) factories symbol ≡ o
      → m.is_shutting_down ≡ false
      → lookup str_eq symbol m.feeds ≡ none
      → IsWellFormed m
      → IsWellFormed (insert_feed (new_map is) factories symbol o m).1
  insert_feed-IsWellFormed symbol m (ok s) e b n w =
      let (h, k) = make_feed-new symbol e in insert-IsWellFormed symbol s m b n h k w
  insert_feed-IsWellFormed symbol m (err x) e b n w = w
  insert_feed-IsWellFormed symbol m panic e b n w = w

  open_feed-IsWellFormed :
      (symbol : String) (m : Manager S)
      → IsWellFormed m
      → IsWellFormed (open_feed (new_map is) factories symbol m).1
  unfolding open_feed
  open_feed-IsWellFormed symbol m w =
      opened m.is_shutting_down (lookup str_eq symbol m.feeds) refl refl
    where
      opened :
          (b : Bool) (o : Option ℕ)
          → m.is_shutting_down ≡ b
          → lookup str_eq symbol m.feeds ≡ o
          → let r : Outcome ℕ × Manager S =
              if b then (err "Manager is shutting down", m) else elim o [
                | some f ↦ (ok f, m)
                | none ↦
                    insert_feed
                      (new_map is)
                      factories
                      symbol
                      (make_feed (new_map is) factories symbol)
                      m
              ] in
            IsWellFormed r.1
      opened true o _ h = w
      opened false (some f) _ h = w
      opened false none b h =
          insert_feed-IsWellFormed symbol m (make_feed (new_map is) factories symbol) refl b h w

  pub step-IsWellFormed : (e : Event) (m : Manager S) → IsWellFormed m → IsWellFormed (step e m)
  step-IsWellFormed (opens symbol) m w = open_feed-IsWellFormed symbol m w
  step-IsWellFormed (subscribes f) m w = modify-IsWellFormed f on_subscribe m on_subscribe-IsQuiet w
  step-IsWellFormed (unsubscribes f) m w =
      modify-IsWellFormed f on_unsubscribe m on_unsubscribe-IsQuiet w
  step-IsWellFormed (waits f) m w = modify-IsWellFormed f wait m wait-IsQuiet w
  step-IsWellFormed (expires f) m w = expire-IsWellFormed f m w
  step-IsWellFormed begins_shutdown m w = record {
    distinct = w.distinct;
    tracked = w.tracked;
    known = w.known;
    idle = w.idle;
    flagged = λ k. cc k;
  }
  step-IsWellFormed drains m w = drain-IsWellFormed m w
  step-IsWellFormed shuts_next m w = shut_next-IsWellFormed m w

  pub run-keeps : (es : List Event) (m : Manager S) → IsWellFormed m → IsWellFormed (run es m)
  run-keeps [] m w = w
  run-keeps (e ∷ es) m w = run-keeps es (step e m) (step-IsWellFormed e m w)

  -- After any calls in any order, the symbols of the table are different, each of its places is a feed
  -- of the symbol, and every feed that was ever opened is either in the table and not shut down, or
  -- not in the table and then shut down or in the queue of the manager's shutdown: no feed is lost
  -- while it runs.
  pub run-IsWellFormed : (es : List Event) → IsWellFormed (run es new_manager)
  unfolding lookup
  run-IsWellFormed es = run-keeps es new_manager (record {
    distinct = tt;
    tracked = λ f s e. cc e;
    known = λ symbol f e. cc e;
    idle = inl refl;
    flagged = λ _. refl;
  })
