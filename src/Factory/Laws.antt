-- ===== src/Factory/Laws.antt =====
-- Which sources are created for an instrument.
use aggbook.Prelude.{
  ℕ, ◌≡◌, ◌≤◌, ◌↔◌, refl, String, some, List, [], ◌∷◌, ◌++◌, map, Outcome, ok, err, panic,
  >>=-eq-ok, ok-injective, ok_or, ok_or-eq-ok, codes, to_lowercase, arith,
}
use aggbook.Sources.{SourceId, bitstamp, binance}
use aggbook.HashMap.{lookup, insert_all}
use aggbook.Instrument.{same_source}
use aggbook.Feed.Task.{start}
use aggbook.Factory.{
  SummarySourceFactory, SummarySourceFactoryMap, with_context, missing, failed,
  create_summary_sources, Source, binance_factory, bitstamp_factory, new_factory_map,
}

module _ {S : Type 0} (m : SummarySourceFactoryMap S) where
  -- Each feed is what the factory of the entry's source made of the entry's symbol.
  abbrev pub Created : List (SourceId × String) → List S → Type 0
  Created [] [] = Unit
  Created ((id, symbol) ∷ es) (s ∷ ss) =
      ((f : SummarySourceFactory S) × (lookup same_source id m.factories ≡ some f)
        × (f symbol ≡ ok s))
      × Created es ss
  Created _ _ = ⊥

  with_context-eq-ok :
      (text : String) (o : Outcome S) {s : S} → with_context text o ≡ ok s → o ≡ ok s
  with_context-eq-ok text (ok s) e = e
  with_context-eq-ok text (err x) e = cc
  with_context-eq-ok text panic e = cc

  create-Created :
      (es : List (SourceId × String)) (ss : List S)
      → create_summary_sources m es ≡ ok ss
      → Created es ss
  unfolding create_summary_sources
  create-Created [] [] e = tt
  create-Created [] (s ∷ ss) e = absurd (cc (ok-injective e))
  create-Created ((id, symbol) ∷ es) ss e =
      let (f, h, first) = >>=-eq-ok (ok_or (missing id) (lookup same_source id m.factories)) _ e in
      let (s, k, second) = >>=-eq-ok (with_context (failed id symbol) (f symbol)) _ first in
      let (rest, r, third) = >>=-eq-ok (create_summary_sources m es) _ second in
      rw (← ok-injective third) (
        (
          f,
          ok_or-eq-ok (missing id) (lookup same_source id m.factories) h,
          with_context-eq-ok (failed id symbol) (f symbol) k,
        ),
        create-Created es rest r,
      )

  Created-create :
      (es : List (SourceId × String)) (ss : List S)
      → Created es ss
      → create_summary_sources m es ≡ ok ss
  unfolding create_summary_sources
  Created-create [] [] c = refl
  Created-create [] (s ∷ ss) c = absurd c
  Created-create ((id, symbol) ∷ es) [] c = absurd c
  Created-create ((id, symbol) ∷ es) (s ∷ ss) ((f, h, k), c) = rw (h, k, Created-create es ss c)

  -- The sources are created exactly if each entry has a factory that makes a feed of the entry's
  -- symbol; they are those feeds, one for each entry.
  pub create_summary_sources_iff :
      (es : List (SourceId × String)) (ss : List S)
      → (create_summary_sources m es ≡ ok ss) ↔ Created es ss
  create_summary_sources_iff es ss = (create-Created es ss, Created-create es ss)

-- A feed that has just been started for an entry.
abbrev pub started : SourceId × String → Source
started (binance, symbol) = record {
  source_id = binance;
  channel = to_lowercase symbol;
  task = start;
}
started (bitstamp, symbol) = record {
  source_id = bitstamp;
  channel = codes "order_book_" ++ to_lowercase symbol;
  task = start;
}

-- With the program's own factories and a depth of at most 10, every mapping gets one feed for each
-- of its entries, awaiting its first connection, on the lower-case symbol or its channel.
create_summary_sources-new_factory_map :
    (n : ℕ) (es : List (SourceId × String))
    → n ≤ 10
    → create_summary_sources (new_factory_map n) es ≡ ok (map started es)
unfolding lookup insert_all binance_factory bitstamp_factory
create_summary_sources-new_factory_map n es h =
    Created-create (new_factory_map n) es (map started es) (each es)
  where
    each : (es : List (SourceId × String)) → Created (new_factory_map n) es (map started es)
    each [] = tt
    each ((binance, symbol) ∷ es) = ((binance_factory n, refl, ground arith), each es)
    each ((bitstamp, symbol) ∷ es) = ((bitstamp_factory n, refl, ground arith), each es)
