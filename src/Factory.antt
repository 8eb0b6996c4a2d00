-- ===== src/Factory.antt =====
-- The factories of summary sources: `SummarySourceFactoryMap` of crates/aggserver/src/service/model.rs
-- and crates/aggserver/src/service/sources/factories.rs, with the `subscribe` that each factory calls.
pub mod Laws
use Prim.Native.String.{◌++◌ as append}
use aggbook.Prelude.{
  ℕ, String, List, [], ◌∷◌, ◌++◌, Outcome, ok, err, panic, ◌>>=◌, ok_or, codes, to_lowercase,
}
use aggbook.Sources.{SourceId, bitstamp, binance, to_string}
use aggbook.HashMap.{HashMap, lookup, insert_all}
use aggbook.Instrument.{same_source}
use aggbook.Feed.Task.{Task, subscribe_binance, subscribe_bitstamp}

abbrev pub SummarySourceFactory : Type 0 → Type 0
SummarySourceFactory S = String → Outcome S

pub record SummarySourceFactoryMap (S : Type 0) : Type 0 where
  pub factories : HashMap SourceId (SummarySourceFactory S)

-- `with_context`: the message of an error is replaced.
abbrev pub with_context : {A : Type 0} → String → Outcome A → Outcome A
with_context message (ok a) = ok a
with_context message (err _) = err message
with_context message panic = panic

abbrev pub missing : SourceId → String
missing id = append "Missing factory for source " (to_string id)

abbrev pub failed : SourceId → String → String
failed id symbol =
    append "Factory failed for source " (append (to_string id) (append " (" (append symbol ")")))

module _ {S : Type 0} where
  abbrev pub from_vec : List (SourceId × SummarySourceFactory S) → SummarySourceFactoryMap S
  from_vec pairs = record { factories = insert_all same_source pairs [] }

  -- `create_summary_sources`, on the entries of the instrument's `source_mapping` in the order in
  -- which the map gives them.
  unfoldable pub create_summary_sources :
      SummarySourceFactoryMap S → List (SourceId × String) → Outcome (List S)
  create_summary_sources m [] = ok []
  create_summary_sources m ((id, symbol) ∷ es) = do
    factory ← ok_or (missing id) (lookup same_source id m.factories)
    feed ← with_context (failed id symbol) (factory symbol)
    feeds ← create_summary_sources m es
    ok (feed ∷ feeds)

-- A feed: its source, the lower-case symbol or the channel that it subscribes to, and its task.
pub record Source : Type 0 where
  pub source_id : SourceId
  pub channel : List ℕ
  pub task : Task

-- `BinanceFeed::subscribe` and `BitstampFeed::subscribe`.
unfoldable pub binance_factory : ℕ → SummarySourceFactory Source
unfolding subscribe_binance
binance_factory n symbol =
    ok (record { source_id = binance; channel = to_lowercase symbol; task = subscribe_binance n })

unfoldable pub bitstamp_factory : ℕ → SummarySourceFactory Source
unfolding subscribe_bitstamp
bitstamp_factory n symbol = do
  t ← subscribe_bitstamp n
  ok (record {
    source_id = bitstamp;
    channel = codes "order_book_" ++ to_lowercase symbol;
    task = t;
  })

abbrev pub new_factory_map : ℕ → SummarySourceFactoryMap Source
new_factory_map n = from_vec ((binance, binance_factory n) ∷ (bitstamp, bitstamp_factory n) ∷ [])
