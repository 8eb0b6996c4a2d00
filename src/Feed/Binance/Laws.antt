-- ===== src/Feed/Binance/Laws.antt =====
-- The snapshot that a Binance message gives: the levels of positive quantity among the first `n`
-- entries of each side.
use aggbook.Prelude.{
  ℕ, suc, ◌≤◌, ◌≡◌, refl, ap, ◌∙◌, sym, subst, String, Option, some, none, List, [], ◌∷◌, length,
  length-take, take, Outcome, ok, ◌>>=◌, >>=-assoc, >>=-eq-ok, ok-injective, ok_or, ok_or-eq-ok,
  if◌then◌else◌, arith, fun_ext,
}
use aggbook.Float.{F64, zero_f64, gt}
use aggbook.Sources.{binance}
use aggbook.Book.{ContributorSnapshot, new_snapshot, push_bid, push_ask}
use aggbook.Feed.{Json, json_error}
use aggbook.Feed.Entries.{IsSnapshot, after, after-IsSnapshot, pair_step}
use aggbook.Feed.Binance.{read_number, push_entries, push_side, array_at, parse_orderbook_update}

module _ (json : Json) where
  open json use {Value, from_str}

  -- The numbers of some entries, in order: the first entry that has none decides the outcome.
  abbrev pub read_entries : List Value → Outcome (List (F64 × F64))
  read_entries [] = ok []
  read_entries (e ∷ es) = do
    p ← read_number json e 0
    q ← read_number json e 1
    ps ← read_entries es
    ok ((p, q) ∷ ps)

  -- The first `n` entries of a side, if it is an array.
  abbrev pub first_entries : ℕ → Option (List Value) → List Value
  first_entries n none = []
  first_entries n (some es) = take n es

  push_entries-after :
      (push : F64 → F64 → ContributorSnapshot → ContributorSnapshot) (es : List Value)
      (s : ContributorSnapshot)
      → push_entries json push es s ≡ (read_entries es >>= λ ps. ok (after push ps s))
  unfolding push_entries
  push_entries-after push [] s = refl
  push_entries-after push (e ∷ es) s =
      pair_step (read_number json e 0) (read_number json e 1) (read_entries es) _
        (λ ps. after push ps s)
        (λ p q. push_entries-after push es (if gt q zero_f64 then push p q s else s))

  push_side-after :
      (n : ℕ) (push : F64 → F64 → ContributorSnapshot → ContributorSnapshot)
      (side : Option (List Value)) (s : ContributorSnapshot)
      → push_side json n push side s
        ≡ (read_entries (first_entries n side) >>= λ ps. ok (after push ps s))
  unfolding push_side
  push_side-after n push none s = refl
  push_side-after n push (some es) s = push_entries-after push (take n es) s

  length-read_entries :
      (es : List Value) {ps : List (F64 × F64)} → read_entries es ≡ ok ps → length ps ≡ length es
  length-read_entries [] e = rw (← ok-injective e) refl
  length-read_entries (x ∷ es) e =
      let (p, _, first) = >>=-eq-ok (read_number json x 0) _ e in
      let (q, _, second) = >>=-eq-ok (read_number json x 1) _ first in
      let (ps, h, third) = >>=-eq-ok (read_entries es) _ second in
      rw (← ok-injective third) (ap suc (length-read_entries es h))

  length-first_entries : (n : ℕ) (side : Option (List Value)) → length (first_entries n side) ≤ n
  length-first_entries n none = omega arith
  length-first_entries n (some es) = omega (arith, length-take n es)

  -- The entries of a side of a message that are read.
  abbrev pub side_of : ℕ → Value → String → List Value
  side_of n v key = first_entries n (array_at json v key)

  -- The snapshot of the numbers of both sides.
  abbrev pub snapshot_of : ℕ → ℕ → List (F64 × F64) → List (F64 × F64) → ContributorSnapshot
  snapshot_of n time bids asks =
      after (push_ask n) asks (after (push_bid n) bids (new_snapshot n binance time))

  abbrev pub read_value : ℕ → ℕ → Value → Outcome ContributorSnapshot
  read_value n time v = do
    bids ← read_entries (side_of n v "bids")
    asks ← read_entries (side_of n v "asks")
    ok (snapshot_of n time bids asks)

  -- What the parser is to give: a read of both sides, then a snapshot of what was read.
  abbrev pub reference : ℕ → String → ℕ → Outcome ContributorSnapshot
  reference n payload time = ok_or json_error (from_str payload) >>= read_value n time

  push_sides-read_value :
      (n time : ℕ) (v : Value)
      → (push_side json n (push_bid n) (array_at json v "bids") (new_snapshot n binance time)
          >>= λ s. push_side json n (push_ask n) (array_at json v "asks") s)
        ≡ read_value n time v
  push_sides-read_value n time v =
      rw
        (
          push_side-after n (push_bid n) (array_at json v "bids") (new_snapshot n binance time),
          >>=-assoc,
        )
        (ap (λ k. read_entries (side_of n v "bids") >>= k)
          (fun_ext λ ps.
            push_side-after n (push_ask n) (array_at json v "asks")
              (after (push_bid n) ps (new_snapshot n binance time))))

  -- The parser is the reference on every message: the same snapshot, the same error, and a panic on
  -- the same messages.
  pub parse_orderbook_update-reference :
      (n : ℕ) (payload : String) (time : ℕ)
      → parse_orderbook_update json n payload time ≡ reference n payload time
  unfolding parse_orderbook_update
  parse_orderbook_update-reference n payload time =
      ap (λ k. ok_or json_error (from_str payload) >>= k) (fun_ext (push_sides-read_value n time))

  length-side_of :
      (n : ℕ) (v : Value) (key : String) {ps : List (F64 × F64)}
      → read_entries (side_of n v key) ≡ ok ps
      → length ps ≤ n
  length-side_of n v key h =
      omega (
        arith,
        length-read_entries (side_of n v key) h,
        length-first_entries n (array_at json v key),
      )

  -- A message that is parsed gives a snapshot of Binance with the time of arrival, whose levels are
  -- those of positive quantity among the first `n` entries of each side, in their order.
  pub parse_orderbook_update-IsSnapshot :
      (n : ℕ) (payload : String) (time : ℕ) {s : ContributorSnapshot}
      → parse_orderbook_update json n payload time ≡ ok s
      → (v : Value) × (bids : List (F64 × F64)) × (asks : List (F64 × F64)) × (from_str payload
          ≡ some v)
        × (read_entries (side_of n v "bids") ≡ ok bids)
        × (read_entries (side_of n v "asks") ≡ ok asks)
        × IsSnapshot n binance time bids asks s
  parse_orderbook_update-IsSnapshot n payload time {s} e =
      let (v, h, first) =
        >>=-eq-ok (ok_or json_error (from_str payload)) (read_value n time)
          (sym (parse_orderbook_update-reference n payload time) ∙ e) in
      let (bids, hb, second) = >>=-eq-ok (read_entries (side_of n v "bids")) _ first in
      let (asks, ha, third) = >>=-eq-ok (read_entries (side_of n v "asks")) _ second in
      let built =
        after-IsSnapshot n binance time bids asks (length-side_of n v "bids" hb)
          (length-side_of n v "asks" ha) in
      (
        v,
        bids,
        asks,
        ok_or-eq-ok json_error (from_str payload) h,
        hb,
        ha,
        subst (IsSnapshot n binance time bids asks) (ok-injective third) built,
      )
