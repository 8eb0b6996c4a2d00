-- ===== src/Summary/Distinct.antt =====
-- Sources that send each price once: no array overflows, if it has room for one level of each source.
use aggbook.Prelude.{
  ℕ, ◌+◌, ◌≤◌, ◌≡◌, List, [], ◌∷◌, ◌++◌, length, Outcome, ok, All, All-imp, arith,
}
use aggbook.Book.{ContributorLevels, ContributorSnapshot, CombinedSummary}
use aggbook.Keys.Order.{PriceKey, ask_key, bid_key}
use aggbook.Summary.{Level, Summary, to_proto}
use aggbook.Summary.Collect.{IsArrayVec, count_at}
use aggbook.Summary.Collect.Gather.{HasRoom}
use aggbook.Summary.Sort.{HasAmount}
use aggbook.Summary.Visit.{sent, all_levels}
use aggbook.Summary.Proto.{all_bids, all_asks, to_proto-total}

-- No side of the snapshot has two levels of one price.
pub record HasDistinctPrices (s : ContributorSnapshot) : Type 0 where
  pub bids : HasRoom bid_key 1 (sent (λ s. s.bids) s)
  pub asks : HasRoom ask_key 1 (sent (λ s. s.asks) s)

count_at-append :
    (side : PriceKey) (q : ℕ) (xs ys : List Level)
    → count_at side q (xs ++ ys) ≡ count_at side q xs + count_at side q ys
count_at-append side q [] ys = omega arith
count_at-append side q (x ∷ xs) ys = omega (arith, count_at-append side q xs ys)

all_levels-HasRoom :
    (side : PriceKey) (get : ContributorSnapshot → ContributorLevels)
    (ss : List ContributorSnapshot)
    → All (λ s. HasRoom side 1 (sent get s)) ss
    → HasRoom side (length ss) (all_levels get ss)
all_levels-HasRoom side get [] h q = omega arith
all_levels-HasRoom side get (s ∷ ss) (h, hs) q = omega (
  arith,
  h q,
  all_levels-HasRoom side get ss hs q,
  count_at-append side q (sent get s) (all_levels get ss),
)

-- `to_proto` gives a summary, and panics nowhere, if no side of a source has one price twice, every
-- amount is a number, and `n` is at least the number of slots.
pub to_proto-total_distinct :
    (n : ℕ) (array_push : List Level → Level → Outcome (List Level))
    (array : IsArrayVec n array_push) (c : CombinedSummary)
    → length c.sources ≤ n
    → All HasDistinctPrices c.sources
    → All HasAmount (all_bids c)
    → All HasAmount (all_asks c)
    → (s : Summary) × (to_proto array_push n c ≡ ok s)
to_proto-total_distinct n array_push array c h d ab aa =
    let rb =
      all_levels-HasRoom bid_key (λ s. s.bids) c.sources
        (All-imp (λ s (p : HasDistinctPrices s). p.bids) c.sources d) in
    let ra =
      all_levels-HasRoom ask_key (λ s. s.asks) c.sources
        (All-imp (λ s (p : HasDistinctPrices s). p.asks) c.sources d) in
    to_proto-total n array_push array c (λ q. omega (arith, rb q)) (λ q. omega (arith, ra q)) ab aa
