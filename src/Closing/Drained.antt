-- ===== src/Closing/Drained.antt =====
-- The loop of `Manager::shutdown` in crates/aggserver/src/service/manager.rs: the feeds that it has
-- taken out of the table, in their order, each next to its tasks. It calls the shutdown of a feed when
-- that of the feed before has returned.
use aggbook.Prelude.{
  ℕ, zero, suc, Bool, true, false, ◌&&◌, String, Option, none, some, List, [], ◌∷◌, get_elem?, set,
  Outcome, if◌then◌else◌,
}
use aggbook.Book.{ContributorSnapshot}
use aggbook.Summary.{Level}
use aggbook.Closing as Closing
use aggbook.Closing.{Closing, of_feed, stores, goes_on, returned}

pub data Event : Type 0 where
  -- Of the feed with this place in the queue.
  at : ℕ → Closing.Event → Event

abbrev pub has_returned : Closing.Phase → Bool
has_returned returned = true
has_returned _ = false

-- The shutdown of each feed before the place has returned.
abbrev pub all_returned : ℕ → List Closing → Bool
all_returned zero ys = true
all_returned (suc k) [] = true
all_returned (suc k) (y ∷ ys) = has_returned y.phase && all_returned k ys

abbrev pub is_turn : Closing.Event → ℕ → List Closing → Bool
is_turn goes_on k ys = all_returned k ys
is_turn _ k ys = true

module _ (array_push : List Level → Level → Outcome (List Level)) (n : ℕ)
    (parse : ℕ → ℕ → String → ℕ → Outcome (Option ContributorSnapshot)) where
  abbrev pub on_feed : ℕ → Closing.Event → Option Closing → List Closing → List Closing
  on_feed k e none ys = ys
  on_feed k e (some y) ys =
      if is_turn e k ys then set ys k (Closing.step array_push n (parse k) e y) else ys

  unfoldable pub step : Event → List Closing → List Closing
  step (at k e) ys = on_feed k e (get_elem? ys k) ys

  unfoldable pub run : List Event → List Closing → List Closing
  unfolding step
  run [] ys = ys
  run (e ∷ es) ys = run es (step e ys)
