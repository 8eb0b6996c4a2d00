-- ===== src/Nanos.antt =====
-- crates/aggcommon/src/nanos.rs: times in nanoseconds since the epoch, as a `u64`. What the clock
-- shows is an argument, and `format_duration` of `humantime` a parameter. A text is its code points.
use aggbook.Prelude.{ℕ, ◌/◌, ◌%◌, ◌^◌, Option, none, some, List, Outcome, ok, panic}

-- `Duration`.
pub record Duration : Type 0 where
  pub secs : ℕ
  pub nanos : ℕ

abbrev pub from_nanos : ℕ → Duration
from_nanos n = record { secs = n / 1000000000; nanos = n % 1000000000 }

-- The clock shows the nanoseconds since the epoch, or a time before it.
abbrev pub nanos_now : Option ℕ → Outcome ℕ
nanos_now none = panic
nanos_now (some t) = ok (t % 2 ^ 64)

abbrev pub nanos_pretty : (Duration → List ℕ) → ℕ → List ℕ
nanos_pretty format_duration n = format_duration (from_nanos n)
