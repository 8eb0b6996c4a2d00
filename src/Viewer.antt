-- ===== src/Viewer.antt =====
-- crates/aggclient/src: the command-line client, which prints each summary of its stream. `checks`
-- tells whether the build checks the overflow of integers, as a debug build does. A text is its code
-- points.
pub mod Printing
pub mod Ending
use aggbook.Prelude.{
  ℕ, String, ◌+◌, ◌-◌, ◌^◌, Bool, true, false, Option, none, some, List, [], ◌∷◌, ◌++◌, map, codes,
  Outcome, ok, err, panic, ◌>>=◌, ltb, if◌then◌else◌,
}
use mathlib.Core.List.{flat_map}
use aggbook.Fixed.{format_f64, right}
use aggbook.Nanos.{Duration, nanos_now, nanos_pretty}
use aggbook.Service.{Status, Item, item, failure}
use aggbook.Summary.{Level, Summary}

-- `now - summary.arrival_time`, on `u64`.
abbrev pub latency : Bool → ℕ → ℕ → Outcome ℕ
latency checks now arrival =
    if ltb now arrival
    then (if checks then panic else ok (now + 2 ^ 64 - arrival))
    else ok (now - arrival)

-- The line of a bid or an ask, and that of all of them.
abbrev pub row : Level → List ℕ
row l =
    codes "  "
    ++ right 10 (format_f64 8 l.price)
    ++ codes " : "
    ++ right 10 (format_f64 4 l.amount)
    ++ codes " ["
    ++ codes l.exchange
    ++ codes "]\n"

abbrev pub rows : List Level → List ℕ
rows [] = []
rows (l ∷ ls) = row l ++ rows ls

module _ (checks : Bool) (format_duration : Duration → List ℕ) where
  -- `DisplaySummary`, at what the clock shows.
  unfoldable pub display : Option ℕ → Summary → Outcome (List ℕ)
  display clock s = do
    now ← nanos_now clock
    delay ← latency checks now s.arrival_time
    ok (
        codes "Latency to now "
        ++ nanos_pretty format_duration delay
        ++ codes ":\nSpread: "
        ++ format_f64 8 s.spread
        ++ codes "\nBids:\n"
        ++ rows s.bids
        ++ codes "Asks:\n"
        ++ rows s.asks)

-- What the loop of `main` takes next: an item of the stream, at what the clock shows; the end of the
-- stream; or the signal of a shutdown.
pub data Event : Type 0 where
  next : Option ℕ → Item Summary → Event
  closed interrupted : Event

-- The loop goes on, has returned `Ok` or an error, or the program has panicked; or there is no loop,
-- since the stream could not be opened.
pub data Exit : Type 0 where
  going done crashed : Exit
  failed : Status → Exit
  lost : String → Exit

-- What was printed, the latest last.
pub record Viewer : Type 0 where
  pub printed : List (List ℕ)
  pub exit : Exit

abbrev pub first : Viewer
first = record { printed = []; exit = going }

-- What `main` does before its loop: the connection, or the request, fails or succeeds.
pub data Opening : Type 0 where
  unreachable declined answered : Opening

abbrev pub start : Opening → Viewer
start unreachable = record first { exit = lost "Failed to connect to server" }
start declined = record first { exit = lost "Failed to initiate BookSummary stream" }
start answered = first

-- `println!`.
abbrev pub print : Outcome (List ℕ) → Viewer → Viewer
print (ok text) v = record v { printed = v.printed ++ text ∷ [] }
print (err _) v = record v { exit = crashed }
print panic v = record v { exit = crashed }

module _ (checks : Bool) (format_duration : Duration → List ℕ) where
  abbrev pub on_event : Exit → Event → Viewer → Viewer
  on_event going (next clock (item s)) v = print (display checks format_duration clock s) v
  on_event going (next clock (failure e)) v = record v { exit = failed e }
  on_event going closed v = record v { exit = done }
  on_event going interrupted v = record v { exit = done }
  on_event _ e v = v

  unfoldable pub run : List Event → Viewer → Viewer
  run [] v = v
  run (e ∷ es) v = run es (on_event v.exit e v)
