-- ===== src/Publisher/Progress.antt =====
-- A publisher does not panic on what the parsers of the two exchanges read.
use mathlib.Core.List.{map}
use aggbook.Prelude.{
  ℕ, ◌≤◌, ◌≡◌, refl, sym, ap, subst, ◌∙◌, ◌⊎◌, inl, inr, String, some, List, [], ◌∷◌, length,
  Outcome, ok, arith, All, All-append, All-imp,
}
use aggbook.Float.{F64, zero_f64}
use aggbook.Float.Order.{gt-number}
use aggbook.Sources.{SourceId, num_sources}
use aggbook.Book.{
  PriceLevel, ContributorLevels, ContributorSnapshot, CombinedSummary, default_snapshot, as_slice,
  update_snapshot,
}
use aggbook.Book.Combined.{update_snapshot-All}
use aggbook.Summary.{Level, Summary, level_proto, to_proto}
use aggbook.Summary.Collect.{IsArrayVec}
use aggbook.Summary.Sort.{HasAmount}
use aggbook.Summary.Visit.{sent, all_levels}
use aggbook.Summary.Distinct.{HasDistinctPrices, to_proto-total_distinct}
use aggbook.Feed.{Json}
use aggbook.Feed.Entries.{IsPositive, positive-IsPositive, IsSnapshot}
use aggbook.Feed.Binance.{parse_orderbook_update}
use aggbook.Feed.Binance.Laws.{parse_orderbook_update-IsSnapshot}
use aggbook.Feed.Bitstamp.{parse_bitstamp_update}
use aggbook.Feed.Bitstamp.Relevance.{parse_bitstamp_update-IsSnapshot}
use aggbook.Publisher.{
  fine, running, Publisher, snapshot, start, publish, on_summary, on_event, run,
}

-- A snapshot that the parser of Binance or that of Bitstamp gave.
abbrev pub IsRead : Json → ℕ → ContributorSnapshot → Type 0
IsRead json n s =
    ((txt : String) × (time : ℕ) × (parse_orderbook_update json n txt time ≡ ok s))
    ⊎ ((txt : String) × (channel : String) × (time : ℕ) × (parse_bitstamp_update json n txt channel
            time
          ≡ ok (some s)))

record HasAmounts (s : ContributorSnapshot) : Type 0 where
  bids : All HasAmount (sent (λ s. s.bids) s)
  asks : All HasAmount (sent (λ s. s.asks) s)

level_proto-HasAmount :
    (id : SourceId) (ls : List PriceLevel)
    → All IsPositive ls
    → All HasAmount (map (level_proto id) ls)
level_proto-HasAmount id [] h = tt
level_proto-HasAmount id (l ∷ ls) (h, hs) =
    ((gt-number l.amount zero_f64 h).0, level_proto-HasAmount id ls hs)

IsSnapshot-HasAmounts :
    (n : ℕ) (id : SourceId) (time : ℕ) (bids asks : List (F64 × F64)) (s : ContributorSnapshot)
    → IsSnapshot n id time bids asks s
    → HasAmounts s
IsSnapshot-HasAmounts n id time bids asks s i = record {
  bids =
      level_proto-HasAmount s.source_id (as_slice s.bids)
        (subst (All IsPositive) (sym i.bids_eq) (positive-IsPositive bids));
  asks =
      level_proto-HasAmount s.source_id (as_slice s.asks)
        (subst (All IsPositive) (sym i.asks_eq) (positive-IsPositive asks));
}

IsRead-HasAmounts : (json : Json) (n : ℕ) (s : ContributorSnapshot) → IsRead json n s → HasAmounts s
IsRead-HasAmounts json n s (inl (txt, time, e)) =
    let (v, bids, asks, _, _, _, i) = parse_orderbook_update-IsSnapshot json n txt time e in
    IsSnapshot-HasAmounts n _ time bids asks s i
IsRead-HasAmounts json n s (inr (txt, channel, time, e)) =
    let (v, bids, asks, _, _, _, _, i) =
      parse_bitstamp_update-IsSnapshot json n txt channel time e in
    IsSnapshot-HasAmounts n _ time bids asks s i

-- What is asked of a snapshot: amounts that are numbers, and no price twice on a side.
abbrev IsSound : ContributorSnapshot → Type 0
IsSound s = HasAmounts s × HasDistinctPrices s

all_levels-HasAmount :
    (get : ContributorSnapshot → ContributorLevels) (ss : List ContributorSnapshot)
    → All (λ s. All HasAmount (sent get s)) ss
    → All HasAmount (all_levels get ss)
all_levels-HasAmount get [] h = tt
all_levels-HasAmount get (s ∷ ss) (h, hs) =
    All-append HasAmount (sent get s) (all_levels get ss) h (all_levels-HasAmount get ss hs)

default_snapshot-IsSound : (n : ℕ) → IsSound (default_snapshot n)
default_snapshot-IsSound n =
    (record { bids = tt; asks = tt }, record { bids = λ q. omega arith; asks = λ q. omega arith })

module _ (n : ℕ) (array_push : List Level → Level → Outcome (List Level))
    (array : IsArrayVec n array_push) where
  to_proto-IsSound :
      (c : CombinedSummary)
      → num_sources ≤ n
      → length c.sources ≡ num_sources
      → All IsSound c.sources
      → (s : Summary) × (to_proto array_push n c ≡ ok s)
  to_proto-IsSound c h l a =
      to_proto-total_distinct n array_push array c (subst (λ k. k ≤ n) (sym l) h)
        (All-imp (λ s (i : IsSound s). i.1) c.sources a)
        (all_levels-HasAmount (λ s. s.bids) c.sources
          (All-imp (λ s (i : IsSound s). i.0.bids) c.sources a))
        (all_levels-HasAmount (λ s. s.asks) c.sources
          (All-imp (λ s (i : IsSound s). i.0.asks) c.sources a))

  run-IsSound :
      (ss : List ContributorSnapshot) (p : Publisher)
      → num_sources ≤ n
      → p.phase ≡ running
      → length p.combined.sources ≡ num_sources
      → All IsSound p.combined.sources
      → All IsSound ss
      → (run array_push n (map snapshot ss) p).phase ≡ running
  unfolding run on_event
  run-IsSound [] p h r l a i = r
  run-IsSound (s ∷ ss) p h r l a (i, is) =
      let c = update_snapshot s p.combined in
      let (a', l') = update_snapshot-All IsSound s p.combined a i in
      let (m, e) = to_proto-IsSound c h (l' ∙ l) a' in
      subst (λ q. (run array_push n (map snapshot ss) q).phase ≡ running)
        (sym (
          ap (λ f. on_event array_push n f (snapshot s) p) r
          ∙ ap (λ o. on_summary o (record p { combined = c })) e))
        (run-IsSound ss (publish (fine (some m)) (record p { combined = c })) h r (l' ∙ l) a' is)

  -- With room for one level of each source at a price, the publisher never panics on snapshots that
  -- the parsers gave, if each of them has no price twice on a side: after any number of them it is
  -- still in its loop.
  pub run-IsRead :
      (json : Json) (ss : List ContributorSnapshot)
      → num_sources ≤ n
      → All (λ s. IsRead json n s × HasDistinctPrices s) ss
      → (run array_push n (map snapshot ss) (start n)).phase ≡ running
  run-IsRead json ss h i =
      let empty = default_snapshot-IsSound n in
      run-IsSound ss (start n) h refl refl (empty, (empty, tt))
        (All-imp
          (λ s (r : IsRead json n s × HasDistinctPrices s). (IsRead-HasAmounts json n s r.0, r.1))
          ss i)
