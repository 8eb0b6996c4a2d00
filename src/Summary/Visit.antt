-- ===== src/Summary/Visit.antt =====
-- The loop over the sources: the two maps hold the levels of every source, and the time is the
-- latest arrival among the sources that have levels.
use mathlib.Core.List.{append-nil}
use mathlib.Core.List.Perm
use aggbook.Prelude.{
  ℕ, ◌≡◌, refl, ap, subst, max, true, List, [], ◌∷◌, ◌++◌, map, Perm, Outcome, ok, >>=-eq-ok,
  ok-injective, Bool-cases, inl, inr, if◌then◌else◌, arith, ◌==◌,
}
use aggbook.Book.{ContributorLevels, ContributorSnapshot, as_slice, is_empty}
use aggbook.Keys.Order.{PriceKey, ask_key, bid_key}
use aggbook.Summary.{Level, Books, level_proto, collect, visit, no_books}
use aggbook.Summary.Collect.{IsArrayVec, count_at, Collected}
use aggbook.Summary.Collect.Gather.{
  gathered, gathered-perm, gathered-append, count_at-gathered, HasRoom, collect-Collected,
  collect-total,
}

-- The levels of one side of a snapshot, as they are sent.
abbrev pub sent : (ContributorSnapshot → ContributorLevels) → ContributorSnapshot → List Level
sent get s = map (level_proto s.source_id) (as_slice (get s))

-- The levels of one side of all sources.
abbrev pub all_levels :
    (ContributorSnapshot → ContributorLevels) → List ContributorSnapshot → List Level
all_levels get [] = []
all_levels get (s ∷ ss) = sent get s ++ all_levels get ss

-- The latest arrival among the sources that have levels.
abbrev pub latest_arrival : List ContributorSnapshot → ℕ
latest_arrival [] = 0
latest_arrival (s ∷ ss) =
    if is_empty s then latest_arrival ss else max s.arrival_time (latest_arrival ss)

module _ (n : ℕ) (array_push : List Level → Level → Outcome (List Level))
    (array : IsArrayVec n array_push) where
  -- What the loop reaches from the maps that hold `lb` and `la`, and from a time.
  record Reaches (ss : List ContributorSnapshot) (lb la : List Level) (time : ℕ) (b : Books)
      : Type 0 where
    bids : Collected bid_key b.bid_map (gathered (all_levels (λ s. s.bids) ss) lb)
    asks : Collected ask_key b.ask_map (gathered (all_levels (λ s. s.asks) ss) la)
    latest : b.latest_time ≡ max time (latest_arrival ss)

  -- An empty snapshot sends nothing.
  sent-empty :
      (s : ContributorSnapshot)
      → is_empty s ≡ true
      → (sent (λ s. s.bids) s ≡ []) × (sent (λ s. s.asks) s ≡ [])
  sent-empty s e =
      (rw (zero_of s.bids.depth (ground arith)), rw (zero_of s.asks.depth (ground arith)))
    where
      zero_of : (d : ℕ) → (d == 0) ≡ true → d ≡ 0
      zero_of d h = ground arith

  visit-Reaches :
      (ss : List ContributorSnapshot) (b b' : Books) (lb la : List Level)
      → Collected bid_key b.bid_map lb
      → Collected ask_key b.ask_map la
      → visit array_push ss b ≡ ok b'
      → Reaches ss lb la b.latest_time b'
  unfolding visit
  visit-Reaches [] b b' lb la hb ha e =
      rw (← ok-injective e) (record { bids = hb; asks = ha; latest = omega arith })
  visit-Reaches (s ∷ ss) b b' lb la hb ha e = elim (Bool-cases (is_empty s)) [
    | inl empty ↦
        let r = visit-Reaches ss b b' lb la hb ha (rw (empty, visit) at e) in
        let (eb, ea) = sent-empty s empty in
        record { bids = rw eb r.bids; asks = rw ea r.asks; latest = rw empty r.latest }
    | inr full ↦
        let e' = rw (full, visit) at e in
        let (bids, p, q) =
          >>=-eq-ok
            (collect array_push bid_key.cmp bid_key.new s.source_id (as_slice s.bids) b.bid_map) _
            e' in
        let (asks, p', q') =
          >>=-eq-ok
            (collect array_push ask_key.cmp ask_key.new s.source_id (as_slice s.asks) b.ask_map) _
            q in
        let r =
          visit-Reaches ss
            (record {
              bid_map = bids;
              ask_map = asks;
              latest_time = max b.latest_time s.arrival_time;
            })
            b' _ _
            (collect-Collected n array_push array bid_key s.source_id (as_slice s.bids) b.bid_map
              bids lb hb p)
            (collect-Collected n array_push array ask_key s.source_id (as_slice s.asks) b.ask_map
              asks la ha p')
            q' in
        record {
          bids =
              rw (gathered-append (sent (λ s. s.bids) s) (all_levels (λ s. s.bids) ss) lb) r.bids;
          asks =
              rw (gathered-append (sent (λ s. s.asks) s) (all_levels (λ s. s.asks) ss) la) r.asks;
          latest = rw full (omega (arith, r.latest));
        }
  ]

  HasRoom-first :
      (side : PriceKey) (xs ys ls : List Level)
      → HasRoom side n (gathered (xs ++ ys) ls)
      → HasRoom side n (gathered xs ls)
  HasRoom-first side xs ys ls room q = omega (
    arith,
    room q,
    ap (count_at side q) (gathered-append xs ys ls),
    count_at-gathered side q ys (gathered xs ls),
  )

  visit-total :
      (ss : List ContributorSnapshot) (b : Books) (lb la : List Level)
      → Collected bid_key b.bid_map lb
      → Collected ask_key b.ask_map la
      → HasRoom bid_key n (gathered (all_levels (λ s. s.bids) ss) lb)
      → HasRoom ask_key n (gathered (all_levels (λ s. s.asks) ss) la)
      → (b' : Books) × (visit array_push ss b ≡ ok b')
  unfolding visit
  visit-total [] b lb la hb ha rb ra = (b, refl)
  visit-total (s ∷ ss) b lb la hb ha rb ra = elim (Bool-cases (is_empty s)) [
    | inl empty ↦
        let (eb, ea) = sent-empty s empty in
        let (b', e) = visit-total ss b lb la hb ha (rw eb at rb) (rw ea at ra) in
        (b', rw (empty, visit) e)
    | inr full ↦
        let xs = sent (λ s. s.bids) s in
        let ys = sent (λ s. s.asks) s in
        let xs' = all_levels (λ s. s.bids) ss in
        let ys' = all_levels (λ s. s.asks) ss in
        let (bids, p) =
          collect-total n array_push array bid_key s.source_id (as_slice s.bids) b.bid_map lb hb
            (HasRoom-first bid_key xs xs' lb rb) in
        let (asks, p') =
          collect-total n array_push array ask_key s.source_id (as_slice s.asks) b.ask_map la ha
            (HasRoom-first ask_key ys ys' la ra) in
        let next : Books = record {
          bid_map = bids;
          ask_map = asks;
          latest_time = max b.latest_time s.arrival_time;
        } in
        let (b', e) =
          visit-total ss next _ _
            (collect-Collected n array_push array bid_key s.source_id (as_slice s.bids) b.bid_map
              bids lb hb p)
            (collect-Collected n array_push array ask_key s.source_id (as_slice s.asks) b.ask_map
              asks la ha p')
            (subst (HasRoom bid_key n) (gathered-append xs xs' lb) rb)
            (subst (HasRoom ask_key n) (gathered-append ys ys' la) ra) in
        (b', rw (full, visit, p, p') e)
  ]

  nil-Collected : (side : PriceKey) → Collected side [] []
  nil-Collected side = record { ordered = tt; each = tt; contents = Perm.refl [] }

  -- The books that the loop leaves, from the start of `to_proto`.
  pub visit-Collected :
      (ss : List ContributorSnapshot) (b : Books)
      → visit array_push ss no_books ≡ ok b
      → (bids : List Level) × (asks : List Level) × Collected bid_key b.bid_map bids
        × Collected ask_key b.ask_map asks
        × Perm bids (all_levels (λ s. s.bids) ss)
        × Perm asks (all_levels (λ s. s.asks) ss)
        × (b.latest_time ≡ latest_arrival ss)
  visit-Collected ss b e =
      let r = visit-Reaches ss no_books b [] [] (nil-Collected bid_key) (nil-Collected ask_key) e in
      (
        _,
        _,
        r.bids,
        r.asks,
        rw append-nil at (gathered-perm (all_levels (λ s. s.bids) ss) []),
        rw append-nil at (gathered-perm (all_levels (λ s. s.asks) ss) []),
        omega (arith, r.latest),
      )

  pub visit-no_books-total :
      (ss : List ContributorSnapshot)
      → HasRoom bid_key n (all_levels (λ s. s.bids) ss)
      → HasRoom ask_key n (all_levels (λ s. s.asks) ss)
      → (b : Books) × (visit array_push ss no_books ≡ ok b)
  visit-no_books-total ss rb ra =
      visit-total ss no_books [] [] (nil-Collected bid_key) (nil-Collected ask_key)
        (λ q. omega (arith, rb q, count_at-gathered bid_key q (all_levels (λ s. s.bids) ss) []))
        (λ q. omega (arith, ra q, count_at-gathered ask_key q (all_levels (λ s. s.asks) ss) []))
