-- ===== src/Manager/Flag.antt =====
-- The flag of a manager that shuts down, which only `shutdown` sets.
use aggbook.Prelude.{ℕ, ◌≡◌, ◌≢◌, refl, String, List, [], ◌∷◌, Outcome, ok, err, panic, arith}
use aggbook.Instrument.{Instrument, new_map}
use aggbook.Factory.{SummarySourceFactoryMap}
use aggbook.Manager.{
  Feed, Manager, remove_feed_if_unused, expire, drain, shut_at, make_feed, insert_feed, open_feed,
}
use aggbook.Manager.Lifecycle.{
  Event, opens, subscribes, unsubscribes, waits, expires, begins_shutdown, drains, shuts_next, step,
}

module _ {S : Type 0} where
  expire-is_shutting_down :
      (f : ℕ) (m : Manager S) → (expire f m).is_shutting_down ≡ m.is_shutting_down
  unfolding expire remove_feed_if_unused
  expire-is_shutting_down f m = ground arith

  drain-is_shutting_down : (m : Manager S) → (drain m).is_shutting_down ≡ m.is_shutting_down
  unfolding drain
  drain-is_shutting_down m = ground arith

  shut_at-is_shutting_down :
      (fs : List ℕ) (m : Manager S) → (shut_at fs m).is_shutting_down ≡ m.is_shutting_down
  shut_at-is_shutting_down [] m = refl
  shut_at-is_shutting_down (f ∷ fs) m = refl

module _ {S : Type 0} (is : List Instrument) (factories : SummarySourceFactoryMap S) where
  insert_feed-is_shutting_down :
      (symbol : String) (o : Outcome (Feed S)) (m : Manager S)
      → (insert_feed (new_map is) factories symbol o m).1.is_shutting_down ≡ m.is_shutting_down
  insert_feed-is_shutting_down symbol (ok s) m = refl
  insert_feed-is_shutting_down symbol (err e) m = refl
  insert_feed-is_shutting_down symbol panic m = refl

  open_feed-is_shutting_down :
      (symbol : String) (m : Manager S)
      → (open_feed (new_map is) factories symbol m).1.is_shutting_down ≡ m.is_shutting_down
  unfolding open_feed
  open_feed-is_shutting_down symbol m =
      ground
        (arith, insert_feed-is_shutting_down symbol (make_feed (new_map is) factories symbol) m)

  pub step-is_shutting_down :
      (e : Event) (m : Manager S)
      → e ≢ begins_shutdown
      → (step is factories e m).is_shutting_down ≡ m.is_shutting_down
  step-is_shutting_down (opens symbol) m h = open_feed-is_shutting_down symbol m
  step-is_shutting_down (subscribes f) m h = refl
  step-is_shutting_down (unsubscribes f) m h = refl
  step-is_shutting_down (waits f) m h = refl
  step-is_shutting_down (expires f) m h = expire-is_shutting_down f m
  step-is_shutting_down begins_shutdown m h = absurd (h refl)
  step-is_shutting_down drains m h = drain-is_shutting_down m
  step-is_shutting_down shuts_next m h = shut_at-is_shutting_down m.closing m
