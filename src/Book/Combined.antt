-- ===== src/Book/Combined.antt =====
-- The combined summary after any history of snapshots.
use aggbook.Prelude.{
  ◌≡◌, refl, ap, ◌∙◌, Bool, true, false, List, [], ◌∷◌, length, length-set, if◌then◌else◌, All,
  All-set,
}
use aggbook.Sources.{SourceId, bitstamp, binance, index}
use aggbook.Book.{ContributorSnapshot, CombinedSummary, update_snapshot}

-- The updates of a history, in order.
abbrev pub updates : List ContributorSnapshot → CombinedSummary → CombinedSummary
updates [] c = c
updates (s ∷ ss) c = updates ss (update_snapshot s c)

-- The snapshot is of the source.
abbrev is_of : SourceId → SourceId → Bool
is_of bitstamp bitstamp = true
is_of binance binance = true
is_of _ _ = false

-- The last snapshot of a source in a history, or else `old`.
abbrev pub latest : ContributorSnapshot → SourceId → List ContributorSnapshot → ContributorSnapshot
latest old id [] = old
latest old id (s ∷ ss) = latest (if is_of s.source_id id then s else old) id ss

-- A book for each of the two sources.
abbrev pub books : ContributorSnapshot → ContributorSnapshot → CombinedSummary
books a b = record { sources = a ∷ b ∷ [] }

books-update_snapshot :
    (id : SourceId) (s a b : ContributorSnapshot)
    → s.source_id ≡ id
    → update_snapshot s (books a b)
      ≡ books
          (if is_of s.source_id bitstamp then s else a)
          (if is_of s.source_id binance then s else b)
unfolding update_snapshot
books-update_snapshot bitstamp s a b e = rw e refl
books-update_snapshot binance s a b e = rw e refl

-- Any history of snapshots leaves the last one of each source.
pub updates-books :
    (ss : List ContributorSnapshot) (a b : ContributorSnapshot)
    → updates ss (books a b) ≡ books (latest a bitstamp ss) (latest b binance ss)
updates-books [] a b = refl
updates-books (s ∷ ss) a b =
    ap (updates ss) (books-update_snapshot s.source_id s a b refl)
    ∙ updates-books ss (if is_of s.source_id bitstamp then s else a)
        (if is_of s.source_id binance then s else b)

pub update_snapshot-All {ℓ} :
    (P : ContributorSnapshot → Type ℓ) (s : ContributorSnapshot) (c : CombinedSummary)
    → All P c.sources
    → P s
    → All P (update_snapshot s c).sources
      × (length (update_snapshot s c).sources ≡ length c.sources)
unfolding update_snapshot
update_snapshot-All P s c a h =
    (All-set P c.sources (index s.source_id) s a h, length-set c.sources (index s.source_id) s)
