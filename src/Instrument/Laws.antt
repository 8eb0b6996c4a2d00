-- ===== src/Instrument/Laws.antt =====
-- What a map of instruments finds.
use text.Mathlib.Text.{◌==◌ as str_eq}
use text.Mathlib.TextEquality.{eq_iff}
use mathlib.Core.Option.{some-injective}
use aggbook.Prelude.{
  Bool-cases, inl, inr, ap, sym, ◌≡◌, ◌∙◌, refl, String, Option, none, some, List, [], ◌∷◌, map,
  arith, if◌then◌else◌,
}
use aggbook.Sources.{bitstamp, binance}
use aggbook.HashMap.Laws.{IsEq, last, lookup-insert_all}
use aggbook.HashMap.{lookup}
use aggbook.Instrument.{same_source, Instrument, keyed, new_map, get}

pub same_source-IsEq : IsEq same_source
same_source-IsEq bitstamp bitstamp = ground arith
same_source-IsEq bitstamp binance = ground arith
same_source-IsEq binance bitstamp = ground arith
same_source-IsEq binance binance = ground arith

pub str_eq-IsEq : IsEq str_eq
str_eq-IsEq a b = eq_iff a b

-- The last of the given instruments with the symbol.
abbrev pub last_with : String → List Instrument → Option Instrument → Option Instrument
last_with symbol [] old = old
last_with symbol (i ∷ is) old = last_with symbol is (if str_eq i.symbol symbol then some i else old)

last-keyed :
    (symbol : String) (is : List Instrument) (old : Option Instrument)
    → last str_eq symbol (map keyed is) old ≡ last_with symbol is old
last-keyed symbol [] old = refl
last-keyed symbol (i ∷ is) old =
    last-keyed symbol is (if str_eq i.symbol symbol then some i else old)

-- A map of instruments finds the last one that was given with the symbol, and nothing where none was.
pub get-new_map :
    (symbol : String) (is : List Instrument) → get symbol (new_map is) ≡ last_with symbol is none
unfolding get lookup
get-new_map symbol is =
    lookup-insert_all str_eq str_eq-IsEq symbol (map keyed is) [] ∙ last-keyed symbol is none

last_with-symbol :
    (symbol : String) (is : List Instrument) (old : Option Instrument) {i : Instrument}
    → ((j : Instrument) → old ≡ some j → j.symbol ≡ symbol)
    → last_with symbol is old ≡ some i
    → i.symbol ≡ symbol
last_with-symbol symbol [] old h e = h _ e
last_with-symbol symbol (j ∷ is) old h e = elim (Bool-cases (str_eq j.symbol symbol)) [
  | inl same ↦
      last_with-symbol symbol is (some j)
        (λ k p.
          ap (λ (i : Instrument). i.symbol) (sym (some-injective _ _ p))
          ∙ (str_eq-IsEq j.symbol symbol).0 same)
        (rw same at e)
  | inr other ↦ last_with-symbol symbol is old h (rw other at e)
]

-- An instrument that is found has the symbol that was asked for.
pub get-symbol :
    (symbol : String) (is : List Instrument) {i : Instrument}
    → get symbol (new_map is) ≡ some i
    → i.symbol ≡ symbol
get-symbol symbol is e =
    last_with-symbol symbol is none (λ _ p. cc p) (sym (get-new_map symbol is) ∙ e)
