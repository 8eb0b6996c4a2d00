-- ===== src/Feed/Entries.antt =====
-- The price entries of a message: which levels they stand for. Both parsers are stated against this.
use aggbook.Prelude.{
  Outcome, ok, err, panic, ◌>>=◌, >>=-map_map, ℕ, ◌<◌, ◌+◌, ◌≤◌, ◌≡◌, refl, ap, sym, ◌∙◌, Bool,
  true, false, List, [], ◌∷◌, ◌++◌, length, if◌then◌else◌, All, arith,
}
use mathlib.Core.List.{append-nil, append_assoc}
use aggbook.Float.{F64, zero_f64, gt}
use aggbook.Sources.{SourceId}
use aggbook.Book.{
  PriceLevel, ContributorLevels, ContributorSnapshot, new_levels, new_snapshot, push, push_bid,
  push_ask, as_slice,
}
use aggbook.Book.Levels.{IsWellFormed, new_levels-IsWellFormed, push-IsWellFormed, push-room}

-- A level of a positive quantity.
abbrev pub IsPositive : PriceLevel → Type 0
IsPositive l = gt l.amount zero_f64 ≡ true

abbrev pub level : F64 → F64 → PriceLevel
level p q = record { price = p; amount = q }

abbrev keep : Bool → PriceLevel → List PriceLevel → List PriceLevel
keep b l ls = if b then l ∷ ls else ls

abbrev push_if : ℕ → Bool → PriceLevel → ContributorLevels → ContributorLevels
push_if n b l c = if b then push n l c else c

-- The levels of positive quantity among pairs of a price and a quantity.
abbrev pub positive : List (F64 × F64) → List PriceLevel
positive [] = []
positive ((p, q) ∷ es) = keep (gt q zero_f64) (level p q) (positive es)

keep-IsPositive :
    (b : Bool) (l : PriceLevel) (ls : List PriceLevel)
    → gt l.amount zero_f64 ≡ b
    → All IsPositive ls
    → All IsPositive (keep b l ls)
keep-IsPositive true l ls h a = (h, a)
keep-IsPositive false l ls h a = a

pub positive-IsPositive : (es : List (F64 × F64)) → All IsPositive (positive es)
positive-IsPositive [] = tt
positive-IsPositive ((p, q) ∷ es) =
    keep-IsPositive (gt q zero_f64) (level p q) (positive es) refl (positive-IsPositive es)

-- The array after the levels of positive quantity have been pushed in order.
abbrev pub pushed : ℕ → List (F64 × F64) → ContributorLevels → ContributorLevels
pushed n [] c = c
pushed n ((p, q) ∷ es) c = pushed n es (push_if n (gt q zero_f64) (level p q) c)

push_if-room :
    (n : ℕ) (b : Bool) (l : PriceLevel) (c : ContributorLevels)
    → IsWellFormed n c
    → c.depth < n
    → IsWellFormed n (push_if n b l c)
      × ((push_if n b l c).depth ≤ c.depth + 1)
      × ((ls : List PriceLevel) → as_slice (push_if n b l c) ++ ls ≡ as_slice c ++ keep b l ls)
push_if-room n true l c w h =
    let (slice, depth) = push-room n l c w h in
    (
      push-IsWellFormed n l c w,
      omega (arith, depth),
      λ ls. ap (λ xs. xs ++ ls) slice ∙ append_assoc (as_slice c) (l ∷ []) ls,
    )
push_if-room n false l c w h = (w, omega arith, λ ls. refl)

-- While there is room for all of them, they are appended to the slice.
pub as_slice-pushed :
    (n : ℕ) (es : List (F64 × F64)) (c : ContributorLevels)
    → IsWellFormed n c
    → c.depth + length es ≤ n
    → IsWellFormed n (pushed n es c) × (as_slice (pushed n es c) ≡ as_slice c ++ positive es)
as_slice-pushed n [] c w h = (w, sym (append-nil (as_slice c)))
as_slice-pushed n ((p, q) ∷ es) c w h =
    let (w', d, slice) = push_if-room n (gt q zero_f64) (level p q) c w (omega arith) in
    let (w'', e) =
      as_slice-pushed n es (push_if n (gt q zero_f64) (level p q) c) w' (omega (arith, d)) in
    (w'', e ∙ slice (positive es))

-- A snapshot after the levels of positive quantity have been pushed in order.
abbrev pub after :
    (F64 → F64 → ContributorSnapshot → ContributorSnapshot)
    → List (F64 × F64)
    → ContributorSnapshot
    → ContributorSnapshot
after push [] s = s
after push ((p, q) ∷ es) s = after push es (if gt q zero_f64 then push p q s else s)

bids_if :
    (n : ℕ) (b : Bool) (p q : F64) (s : ContributorSnapshot)
    → (if b then push_bid n p q s else s) ≡ record s { bids = push_if n b (level p q) s.bids }
bids_if n true p q s = refl
bids_if n false p q s = refl

asks_if :
    (n : ℕ) (b : Bool) (p q : F64) (s : ContributorSnapshot)
    → (if b then push_ask n p q s else s) ≡ record s { asks = push_if n b (level p q) s.asks }
asks_if n true p q s = refl
asks_if n false p q s = refl

after-push_bid :
    (n : ℕ) (es : List (F64 × F64)) (s : ContributorSnapshot)
    → after (push_bid n) es s ≡ record s { bids = pushed n es s.bids }
after-push_bid n [] s = refl
after-push_bid n ((p, q) ∷ es) s =
    ap (after (push_bid n) es) (bids_if n (gt q zero_f64) p q s)
    ∙ after-push_bid n es (record s { bids = push_if n (gt q zero_f64) (level p q) s.bids })

after-push_ask :
    (n : ℕ) (es : List (F64 × F64)) (s : ContributorSnapshot)
    → after (push_ask n) es s ≡ record s { asks = pushed n es s.asks }
after-push_ask n [] s = refl
after-push_ask n ((p, q) ∷ es) s =
    ap (after (push_ask n) es) (asks_if n (gt q zero_f64) p q s)
    ∙ after-push_ask n es (record s { asks = push_if n (gt q zero_f64) (level p q) s.asks })

-- A snapshot of a source with the positive levels of two lists of at most `n` entries.
pub record IsSnapshot (n : ℕ) (id : SourceId) (time : ℕ) (bids asks : List (F64 × F64))
    (s : ContributorSnapshot) : Type 0 where
  pub source : s.source_id ≡ id
  pub arrival : s.arrival_time ≡ time
  pub sound_bids : IsWellFormed n s.bids
  pub sound_asks : IsWellFormed n s.asks
  pub bids_eq : as_slice s.bids ≡ positive bids
  pub asks_eq : as_slice s.asks ≡ positive asks

-- What both parsers build from the numbers of the first `n` entries of each side.
pub after-IsSnapshot :
    (n : ℕ) (id : SourceId) (time : ℕ) (bids asks : List (F64 × F64))
    → length bids ≤ n
    → length asks ≤ n
    → IsSnapshot n id time bids asks
        (after (push_ask n) asks (after (push_bid n) bids (new_snapshot n id time)))
after-IsSnapshot n id time bids asks hb ha =
    let empty = new_levels-IsWellFormed n in
    let (wb, eb) = as_slice-pushed n bids (new_levels n) empty (omega arith) in
    let (wa, ea) = as_slice-pushed n asks (new_levels n) empty (omega arith) in
    rw
      (
        after-push_bid n bids (new_snapshot n id time),
        after-push_ask n asks
            (record (new_snapshot n id time) { bids = pushed n bids (new_levels n) }),
      )
      (record {
        source = refl;
        arrival = refl;
        sound_bids = wb;
        sound_asks = wa;
        bids_eq = eb;
        asks_eq = ea;
      })

-- Reading a pair, then the rest, then building from both.
pub pair_step :
    {S : Type 0} (a b : Outcome F64) (r : Outcome (List (F64 × F64))) (k : F64 → F64 → Outcome S)
    (g : List (F64 × F64) → S)
    → ((p q : F64) → k p q ≡ (r >>= λ ps. ok (g ((p, q) ∷ ps))))
    → (a >>= λ p. b >>= λ q. k p q)
      ≡ ((a >>= λ p. b >>= λ q. r >>= λ ps. ok ((p, q) ∷ ps)) >>= λ ps. ok (g ps))
pair_step (ok p) (ok q) r k g h = h p q ∙ sym (>>=-map_map r (λ ps. (p, q) ∷ ps) g)
pair_step (ok p) (err e) r k g h = refl
pair_step (ok p) panic r k g h = refl
pair_step (err e) b r k g h = refl
pair_step panic b r k g h = refl
