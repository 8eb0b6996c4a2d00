-- ===== src/Summary/Spread.antt =====
-- The spread of a summary, against the best prices among all the levels that the sources hold.
use mathlib.Core.List.Perm
use native.Mathlib.Bridge.{le_prop}
use aggbook.Prelude.{
  ℕ, ◌≤◌, ◌<◌, ◌≡◌, refl, subst, List, [], ◌∷◌, Perm, Outcome, ok, >>=-eq-ok, ok-injective, head?,
  take, All, All-imp, All-append, All-perm, Option, some, none, ◌⊎◌, inl, inr, true, false, Bool,
  ◌&&◌, arith, Bool-cases,
}
use aggbook.Float.{F64, nan, zero_f64, gt, sub}
use aggbook.Book.{CombinedSummary}
use aggbook.Keys.Order.{PriceKey, ask_key, bid_key}
use aggbook.Summary.{Level, Summary, visit, no_books, flat_sorted, spread_from, to_proto}
use aggbook.Summary.Collect.{IsArrayVec, place_of}
use aggbook.Summary.Best.{IsBest, Before}
use aggbook.Summary.Proto.{all_bids, all_asks, to_proto-IsBest}

module _ (side : PriceKey) where
  -- `best` is a level of the best price among `ls`, if there is one.
  abbrev pub Leads : Option Level → List Level → Type 0
  Leads none ls = ls ≡ []
  Leads (some b) ls = All (λ l. place_of side b ≤ place_of side l) ls

  Before-le : (a b : Level) → Before side a b → place_of side a ≤ place_of side b
  Before-le a b h = ground arith

  -- The first level that is sent leads all of the side, if at least one price is sent.
  IsBest-Leads : (n : ℕ) (ls out : List Level) → 0 < n → IsBest side n ls out → Leads (head? out) ls
  IsBest-Leads n ls [] h b = elim b.full [
    | inl e ↦ Perm.eq-nil (Perm.symm (subst (λ r. Perm r ls) e b.split))
    | inr e ↦ absurd (omega arith)
  ]
  IsBest-Leads n ls (x ∷ out) h b =
      All-perm (λ l. place_of side x ≤ place_of side l) (λ _. le_prop) b.split
        (All-append (λ l. place_of side x ≤ place_of side l) (x ∷ out) b.rest
          (omega arith, All-imp (λ l. Before-le x l) out b.ordered.0)
          (All-imp (λ l k. omega arith) b.rest b.better.0))

-- A level with a price above zero.
abbrev pub is_positive : Option Level → Bool
is_positive none = false
is_positive (some l) = gt l.price zero_f64

-- The spread of two levels that may be missing.
abbrev pub IsSpread : Option Level → Option Level → F64 → Type 0
IsSpread bid ask x =
    ((b : Level) × (a : Level) × (bid ≡ some b)
      × (ask ≡ some a)
      × (gt b.price zero_f64 ≡ true)
      × (gt a.price zero_f64 ≡ true)
      × (x ≡ sub a.price b.price))
    ⊎ (((is_positive bid && is_positive ask) ≡ false) × (x ≡ nan))

-- `spread_from` subtracts the bid from the ask where both are there with positive prices, and gives
-- NaN in every other case.
pub spread_from-IsSpread : (bid ask : Option Level) → IsSpread bid ask (spread_from bid ask)
unfolding spread_from
spread_from-IsSpread none ask = inr (refl, refl)
spread_from-IsSpread (some b) none = inr (ground arith, refl)
spread_from-IsSpread (some b) (some a) = elim (Bool-cases (gt b.price zero_f64)) [
  | inl p ↦ elim (Bool-cases (gt a.price zero_f64)) [
    | inl q ↦ inl (b, a, refl, refl, p, q, rw (p, q))
    | inr q ↦ inr (rw (p, q), rw (p, q))
  ]
  | inr p ↦ inr (rw p, rw p)
]

to_proto-spread_from :
    (n : ℕ) (array_push : List Level → Level → Outcome (List Level)) (c : CombinedSummary)
    {s : Summary}
    → to_proto array_push n c ≡ ok s
    → s.spread ≡ spread_from (head? s.bids) (head? s.asks)
unfolding to_proto
to_proto-spread_from n array_push c e =
    let (b, p, q) = >>=-eq-ok (visit array_push c.sources no_books) _ e in
    let (bids, p', q') = >>=-eq-ok (flat_sorted (take n b.bid_map)) _ q in
    let (asks, p'', q'') = >>=-eq-ok (flat_sorted (take n b.ask_map)) _ q' in
    rw (← ok-injective q'')

-- The spread that is sent is that of a bid of the best price among all bids that the sources hold
-- and of an ask of the best price among all their asks, if at least one price is sent.
pub to_proto-IsSpread :
    (n : ℕ) (array_push : List Level → Level → Outcome (List Level))
    (array : IsArrayVec n array_push) (c : CombinedSummary) {s : Summary}
    → 0 < n
    → to_proto array_push n c ≡ ok s
    → (bid : Option Level) × (ask : Option Level) × Leads bid_key bid (all_bids c)
      × Leads ask_key ask (all_asks c)
      × IsSpread bid ask s.spread
to_proto-IsSpread n array_push array c {s} h e =
    let (bids, asks, _) = to_proto-IsBest n array_push array c e in
    (
      head? s.bids,
      head? s.asks,
      IsBest-Leads bid_key n (all_bids c) s.bids h bids,
      IsBest-Leads ask_key n (all_asks c) s.asks h asks,
      rw (to_proto-spread_from n array_push c e)
          (spread_from-IsSpread (head? s.bids) (head? s.asks)),
    )
