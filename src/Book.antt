-- ===== src/Book.antt =====
-- crates/aggserver/src/service/model.rs: price levels, one source's snapshot of its book, and the
-- combined summary that keeps the latest snapshot of every source. `n` is the const generic `N`.
pub mod Levels
pub mod Combined
use aggbook.Prelude.{
  ℕ, suc, ◌+◌, Bool, ◌&&◌, String, List, [], ◌∷◌, set, take, replicate, ltb, ◌==◌, if◌then◌else◌,
}
use aggbook.Float.{F64, zero_f64}
use aggbook.Sources.{SourceId, num_sources, index, default}

pub record PriceLevel : Type 0 where
  pub price : F64
  pub amount : F64

abbrev pub zero_level : PriceLevel
zero_level = record { price = zero_f64; amount = zero_f64 }

-- An array of `n` levels, of which the first `depth` are in use.
pub record ContributorLevels : Type 0 where
  pub levels : List PriceLevel
  pub depth : ℕ

abbrev pub new_levels : ℕ → ContributorLevels
new_levels n = record { levels = replicate n zero_level; depth = 0 }

-- `push`: a level beyond the capacity is dropped.
unfoldable pub push : ℕ → PriceLevel → ContributorLevels → ContributorLevels
push n level c =
    if ltb c.depth n then record { levels = set c.levels c.depth level; depth = c.depth + 1 } else c

-- `as_slice`.
abbrev pub as_slice : ContributorLevels → List PriceLevel
as_slice c = take c.depth c.levels

pub record ContributorSnapshot : Type 0 where
  pub bids : ContributorLevels
  pub asks : ContributorLevels
  pub source_id : SourceId
  pub arrival_time : ℕ

-- `ContributorSnapshot::new`.
abbrev pub new_snapshot : ℕ → SourceId → ℕ → ContributorSnapshot
new_snapshot n source time = record {
  bids = new_levels n;
  asks = new_levels n;
  source_id = source;
  arrival_time = time;
}

abbrev pub default_snapshot : ℕ → ContributorSnapshot
default_snapshot n = new_snapshot n default 0

abbrev pub push_bid : ℕ → F64 → F64 → ContributorSnapshot → ContributorSnapshot
push_bid n price amount s = record s {
  bids = push n (record { price = price; amount = amount }) s.bids;
}

abbrev pub push_ask : ℕ → F64 → F64 → ContributorSnapshot → ContributorSnapshot
push_ask n price amount s = record s {
  asks = push n (record { price = price; amount = amount }) s.asks;
}

abbrev pub is_empty : ContributorSnapshot → Bool
is_empty s = (s.bids.depth == 0) && (s.asks.depth == 0)

-- One slot for each source, by its index.
pub record CombinedSummary : Type 0 where
  pub sources : List ContributorSnapshot

abbrev pub new_combined : ℕ → CombinedSummary
new_combined n = record { sources = replicate num_sources (default_snapshot n) }

-- `update_snapshot`: the slot of the snapshot's own source is overwritten.
unfoldable pub update_snapshot : ContributorSnapshot → CombinedSummary → CombinedSummary
update_snapshot s c = record { sources = set c.sources (index s.source_id) s }
