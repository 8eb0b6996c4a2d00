-- ===== src/Summary/Proto.antt =====
-- What `to_proto` sends, against the levels that the sources hold.
use mathlib.Core.List.Perm
use aggbook.Prelude.{
  ℕ, ◌≡◌, List, Perm, take, Outcome, ok, >>=-eq-ok, ok-injective, head?, All, All-perm,
}
use aggbook.Book.{CombinedSummary}
use aggbook.Keys.Order.{PriceKey, ask_key, bid_key}
use aggbook.Summary.{Level, Summary, visit, no_books, flat_sorted, spread_from, to_proto}
use aggbook.Summary.Collect.{IsArrayVec}
use aggbook.Summary.Collect.Gather.{HasRoom}
use aggbook.Summary.Visit.{all_levels, latest_arrival, visit-Collected, visit-no_books-total}
use aggbook.Summary.Best.{IsBest, flat_sorted-IsBest, flat_sorted-take-total}
use aggbook.Summary.Sort.{HasAmount}

abbrev pub all_bids : CombinedSummary → List Level
all_bids c = all_levels (λ s. s.bids) c.sources

abbrev pub all_asks : CombinedSummary → List Level
all_asks c = all_levels (λ s. s.asks) c.sources

module _ (n : ℕ) (array_push : List Level → Level → Outcome (List Level))
    (array : IsArrayVec n array_push) where
  IsBest-perm :
      (side : PriceKey) (ls ls' out : List Level)
      → Perm ls ls'
      → IsBest side n ls out
      → IsBest side n ls' out
  IsBest-perm side ls ls' out p b = record {
    rest = b.rest;
    split = Perm.trans b.split p;
    ordered = b.ordered;
    better = b.better;
    few = b.few;
    full = b.full;
  }

  -- Each side of a summary is the best of all the levels that the sources hold on that side: the
  -- levels of the `n` best prices and no others, the best price first and at one price the greatest
  -- amount first. The time is the latest arrival among the snapshots that have levels.
  pub to_proto-IsBest :
      (c : CombinedSummary) {s : Summary}
      → to_proto array_push n c ≡ ok s
      → IsBest bid_key n (all_bids c) s.bids
        × IsBest ask_key n (all_asks c) s.asks
        × (s.arrival_time ≡ latest_arrival c.sources)
  unfolding to_proto
  to_proto-IsBest c {s} e =
      let (b, p, q) = >>=-eq-ok (visit array_push c.sources no_books) _ e in
      let (bids, p', q') = >>=-eq-ok (flat_sorted (take n b.bid_map)) _ q in
      let (asks, p'', q'') = >>=-eq-ok (flat_sorted (take n b.ask_map)) _ q' in
      let (lb, la, hb, ha, pb, pa, t) = visit-Collected n array_push array c.sources b p in
      rw (← ok-injective q'') (
        IsBest-perm bid_key lb (all_bids c) bids pb
            (flat_sorted-IsBest bid_key n b.bid_map lb hb p'),
        IsBest-perm ask_key la (all_asks c) asks pa
            (flat_sorted-IsBest ask_key n b.ask_map la ha p''),
        t,
      )

  -- `to_proto` gives a summary, and panics nowhere, if every amount is a number and no price of a
  -- side has more than `n` levels among all the sources.
  pub to_proto-total :
      (c : CombinedSummary)
      → HasRoom bid_key n (all_bids c)
      → HasRoom ask_key n (all_asks c)
      → All HasAmount (all_bids c)
      → All HasAmount (all_asks c)
      → (s : Summary) × (to_proto array_push n c ≡ ok s)
  unfolding to_proto
  to_proto-total c rb ra ab aa =
      let (b, e) = visit-no_books-total n array_push array c.sources rb ra in
      let (lb, la, hb, ha, pb, pa, t) = visit-Collected n array_push array c.sources b e in
      let (bids, f) =
        flat_sorted-take-total bid_key n b.bid_map lb hb
          (All-perm HasAmount (λ a. hlevel) (Perm.symm pb) ab) in
      let (asks, g) =
        flat_sorted-take-total ask_key n b.ask_map la ha
          (All-perm HasAmount (λ a. hlevel) (Perm.symm pa) aa) in
      (
        record {
          spread = spread_from (head? bids) (head? asks);
          bids = bids;
          asks = asks;
          arrival_time = b.latest_time;
        },
        rw (e, f, g),
      )
