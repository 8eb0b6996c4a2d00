-- ===== src/Publisher/Best.antt =====
-- What a publisher has stored, against the snapshots that it has taken.
use aggbook.Prelude.{
  ℕ, ◌≡◌, refl, sym, ap, subst, ◌∙◌, inl, inr, some, List, [], ◌∷◌, length, map, Outcome, arith,
}
use aggbook.Sources.{bitstamp, binance}
use aggbook.Book.{ContributorSnapshot, CombinedSummary, default_snapshot}
use aggbook.Book.Combined.{latest, books, updates-books}
use aggbook.Keys.Order.{ask_key, bid_key}
use aggbook.Summary.{Level, Summary, to_proto}
use aggbook.Summary.Collect.{IsArrayVec}
use aggbook.Summary.Visit.{latest_arrival}
use aggbook.Summary.Best.{IsBest}
use aggbook.Summary.Proto.{all_bids, all_asks, to_proto-IsBest}
use aggbook.Publisher.{fine, running, Event, snapshot, close, start, run}
use aggbook.Publisher.History.{Reached, run-HasTaken}

-- The last snapshot of each source, or an empty book of a source that has sent none.
abbrev pub last_books : ℕ → List ContributorSnapshot → CombinedSummary
last_books n ss =
    books (latest (default_snapshot n) bitstamp ss) (latest (default_snapshot n) binance ss)

snapshots : List Event → List ContributorSnapshot
snapshots [] = []
snapshots (snapshot s ∷ es) = s ∷ snapshots es
snapshots (close ∷ es) = snapshots es

snapshots-map : (ss : List ContributorSnapshot) → snapshots (map snapshot ss) ≡ ss
unfolding snapshots
snapshots-map [] = refl
snapshots-map (s ∷ ss) = ap (λ ss. s ∷ ss) (snapshots-map ss)

module _ (n : ℕ) (array_push : List Level → Level → Outcome (List Level))
    (array : IsArrayVec n array_push) where
  -- The summary that stands for the last snapshot of each source.
  pub record IsSummary (ss : List ContributorSnapshot) (m : Summary) : Type 0 where
    pub bids : IsBest bid_key n (all_bids (last_books n ss)) m.bids
    pub asks : IsBest ask_key n (all_asks (last_books n ss)) m.asks
    pub time : m.arrival_time ≡ latest_arrival (last_books n ss).sources

  -- A publisher that has taken some snapshots from its start, and is still in its loop, has stored a
  -- summary whose sides are the best of all levels in the last snapshot of Bitstamp and the last one
  -- of Binance that it has taken, with the latest arrival of the two if they have levels; and it has
  -- notified the watchers once for each snapshot.
  pub run-IsSummary :
      (s : ContributorSnapshot) (ss : List ContributorSnapshot)
      → let p = run array_push n (map snapshot (s ∷ ss)) (start n) in
        p.phase ≡ running
        → (m : Summary) × (p.latest ≡ fine (some m))
          × (p.watch ≡ length (s ∷ ss))
          × IsSummary (s ∷ ss) m
  run-IsSummary s ss h =
      let p = run array_push n (map snapshot (s ∷ ss)) (start n) in
      let (ts, e, r) = run-HasTaken array_push n (map snapshot (s ∷ ss)) (start n) refl h in
      let same : ts ≡ s ∷ ss =
        sym (snapshots-map ts) ∙ ap snapshots (sym e) ∙ snapshots-map (s ∷ ss) in
      elim (subst (λ ts. Reached array_push n ts (start n) p) same r).current [
        | inl (none_left, _) ↦ absurd (cc none_left)
        | inr (m, l, q) ↦
            let held : p.combined ≡ last_books n (s ∷ ss) =
              (subst (λ ts. Reached array_push n ts (start n) p) same r).combines
              ∙ updates-books (s ∷ ss) (default_snapshot n) (default_snapshot n) in
            let (bids, asks, time) =
              to_proto-IsBest n array_push array (last_books n (s ∷ ss))
                (ap (to_proto array_push n) (sym held) ∙ q) in
            (
              m,
              l,
              omega (arith, (subst (λ ts. Reached array_push n ts (start n) p) same r).notified),
              record { bids = bids; asks = asks; time = time },
            )
      ]
