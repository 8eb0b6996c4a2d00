-- ===== src/Summary.antt =====
-- crates/aggserver/src/service/model.rs: `CombinedSummary::to_proto` and `spread_from`, with the
-- messages `Level` and `Summary` of crates/aggcommon/proto/orderbook.proto. `array_push` is `push` of
-- `arrayvec::ArrayVec` at the capacity `N`, on the elements that the array holds.
pub mod Sort
pub mod Collect
pub mod Visit
pub mod Best
pub mod Proto
pub mod Spread
pub mod Distinct
use aggbook.Prelude.{
  ℕ, zero, max, Ordering, Bool, true, false, ◌&&◌, String, Option, none, some, List, [], ◌∷◌, ◌++◌,
  take, head?, Outcome, ok, ◌>>=◌, unwrap, if◌then◌else◌,
}
use aggbook.Float.{F64, nan, zero_f64, partial_cmp, gt, sub}
use aggbook.Sources.{SourceId, to_string}
use aggbook.Book.{PriceLevel, ContributorSnapshot, CombinedSummary, as_slice, is_empty}
use aggbook.BTreeMap.{BTreeMap, entry_or_default}
use aggbook.Keys.{AskKeyedPrice, BidKeyedPrice, new_ask, new_bid, cmp_ask, cmp_bid}

pub record Level : Type 0 where
  pub exchange : String
  pub price : F64
  pub amount : F64

pub record Summary : Type 0 where
  pub spread : F64
  pub bids : List Level
  pub asks : List Level
  pub arrival_time : ℕ

-- `spread_from`: the difference of two positive prices, and NaN otherwise.
pub spread_from : Option Level → Option Level → F64
spread_from (some b) (some a) =
    if gt b.price zero_f64 && gt a.price zero_f64 then sub a.price b.price else nan
spread_from _ _ = nan

-- `sort_unstable_by` with the amounts compared in descending order: insertion, which is what the
-- standard library does on short slices. The `unwrap` panics where an amount is NaN.
insert_by_amount : Level → List Level → Outcome (List Level)
insert_by_amount x [] = ok (x ∷ [])
insert_by_amount x (y ∷ ys) = do
  o ← unwrap (partial_cmp y.amount x.amount)
  elim o [ Ordering.lt ↦ ok (x ∷ y ∷ ys) | _ ↦ (do r ← insert_by_amount x ys; ok (y ∷ r)) ]

sort_into : List Level → List Level → Outcome (List Level)
unfolding insert_by_amount
sort_into sorted [] = ok sorted
sort_into sorted (x ∷ xs) = do s ← insert_by_amount x sorted; sort_into s xs

pub sort_by_amount : List Level → Outcome (List Level)
unfolding sort_into
sort_by_amount = sort_into []

-- `flat_map` over the entries that are taken, each sorted by amount.
pub flat_sorted : {K : Type 0} → BTreeMap K (List Level) → Outcome (List Level)
unfolding sort_by_amount
flat_sorted [] = ok []
flat_sorted ((k, v) ∷ m) = do s ← sort_by_amount v; r ← flat_sorted m; ok (s ++ r)

abbrev pub level_proto : SourceId → PriceLevel → Level
level_proto source l = record { exchange = to_string source; price = l.price; amount = l.amount }

pub record Books : Type 0 where
  pub bid_map : BTreeMap BidKeyedPrice (List Level)
  pub ask_map : BTreeMap AskKeyedPrice (List Level)
  pub latest_time : ℕ

abbrev pub no_books : Books
no_books = record { bid_map = []; ask_map = []; latest_time = 0 }

module _ (array_push : List Level → Level → Outcome (List Level)) where
  -- The loop over one side of a snapshot.
  pub collect :
      {K : Type 0}
      → (K → K → Outcome Ordering)
      → (F64 → K)
      → SourceId
      → List PriceLevel
      → BTreeMap K (List Level)
      → Outcome (BTreeMap K (List Level))
  unfolding entry_or_default
  collect cmp new source [] m = ok m
  collect cmp new source (l ∷ ls) m = do
    m' ← entry_or_default cmp (new l.price) [] (λ v. array_push v (level_proto source l)) m
    collect cmp new source ls m'

  -- The loop over the sources, which skips empty snapshots.
  pub visit : List ContributorSnapshot → Books → Outcome Books
  unfolding collect new_ask new_bid cmp_ask cmp_bid
  visit [] b = ok b
  visit (s ∷ ss) b = elim (is_empty s) [
    | true ↦ visit ss b
    | false ↦ (do
      bids ← collect cmp_bid new_bid s.source_id (as_slice s.bids) b.bid_map
      asks ← collect cmp_ask new_ask s.source_id (as_slice s.asks) b.ask_map
      visit ss (record {
        bid_map = bids;
        ask_map = asks;
        latest_time = max b.latest_time s.arrival_time;
      }))
  ]

  unfoldable pub to_proto : ℕ → CombinedSummary → Outcome Summary
  unfolding visit flat_sorted spread_from
  to_proto n c = do
    b ← visit c.sources no_books
    bids ← flat_sorted (take n b.bid_map)
    asks ← flat_sorted (take n b.ask_map)
    ok (record {
      spread = spread_from (head? bids) (head? asks);
      bids = bids;
      asks = asks;
      arrival_time = b.latest_time;
    })
