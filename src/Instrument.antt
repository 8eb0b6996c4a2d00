-- ===== src/Instrument.antt =====
-- crates/aggcommon/src/instrument.rs: instruments with their symbols at the sources, and the map of
-- instruments; `build_instrument_map` of crates/aggserver/src/main.rs.
pub mod Laws
use text.Mathlib.Text.{◌==◌ as str_eq}
use aggbook.Prelude.{Bool, String, Option, List, [], ◌∷◌, map, ◌==◌}
use aggbook.Sources.{SourceId, bitstamp, binance, index}
use aggbook.HashMap.{HashMap, lookup, insert_all}

-- `PartialEq` of the ids, derived.
abbrev pub same_source : SourceId → SourceId → Bool
same_source a b = index a == index b

pub record SourceSymbol : Type 0 where
  pub source : SourceId
  pub symbol : String

pub record Instrument : Type 0 where
  pub symbol : String
  pub source_mapping : HashMap SourceId String

abbrev pub pair_of : SourceSymbol → SourceId × String
pair_of ss = (ss.source, ss.symbol)

abbrev pub new_instrument : String → List SourceSymbol → Instrument
new_instrument symbol source_symbols = record {
  symbol = symbol;
  source_mapping = insert_all same_source (map pair_of source_symbols) [];
}

-- `PartialEq` of instruments compares the symbols.
abbrev pub same_instrument : Instrument → Instrument → Bool
same_instrument a b = str_eq a.symbol b.symbol

pub record InstrumentMap : Type 0 where
  pub map : HashMap String Instrument

abbrev pub keyed : Instrument → String × Instrument
keyed i = (i.symbol, i)

abbrev pub new_map : List Instrument → InstrumentMap
new_map instruments = record { map = insert_all str_eq (map keyed instruments) [] }

unfoldable pub get : String → InstrumentMap → Option Instrument
unfolding lookup
get symbol m = lookup str_eq symbol m.map

-- `build_instrument_map` of the server.
abbrev pub instruments : List Instrument
instruments =
    new_instrument "ETH-BTC" (
      record { source = bitstamp; symbol = "ethbtc" }
      ∷ record { source = binance; symbol = "ETHBTC" }
      ∷ [])
    ∷ []

abbrev pub build_instrument_map : InstrumentMap
build_instrument_map = new_map instruments
