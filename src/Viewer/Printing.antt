-- ===== src/Viewer/Printing.antt =====
-- When a summary can be printed.
use aggbook.Prelude.{
  ℕ, ◌+◌, ◌-◌, ◌%◌, ◌*◌, ◌^◌, ◌<◌, ◌≡◌, ◌↔◌, sym, ap, ap₂, ◌∙◌, subst, Bool-cases, inl, inr, Bool,
  true, false, some, List, ◌++◌, codes, Outcome, ok, panic, ◌>>=◌, ltb, if◌then◌else◌, arith,
}
use aggbook.Fixed.{format_f64, right, sign}
use aggbook.Fixed.Nearest.{IsRounded}
use aggbook.Fixed.Reading.{read_fixed, format_f64-IsRounded}
use aggbook.Float.{infinite, units}
use aggbook.Nanos.{Duration, nanos_pretty}
use aggbook.Summary.{Level, Summary}
use aggbook.Viewer.{latency, row, rows, display}

panics_iff :
    (now arrival : ℕ) (k : ℕ → List ℕ)
    → ((latency true now arrival >>= λ d. ok (k d)) ≡ panic) ↔ (now < arrival)
panics_iff now arrival k = elim (Bool-cases (ltb now arrival)) [
  | inl late ↦ (λ _. ground (arith, late), λ _. ap (λ b. outcome b >>= λ d. ok (k d)) late)
  | inr fine ↦
      (λ e. cc (sym (ap (λ b. outcome b >>= λ d. ok (k d)) fine) ∙ e), λ h. absurd (early h fine))
]
  where
    outcome : Bool → Outcome ℕ
    outcome b =
        if b then (if true then panic else ok (now + 2 ^ 64 - arrival)) else ok (now - arrival)

    early : now < arrival → ltb now arrival ≡ false → ⊥
    early h fine = ground (arith, h, fine)

-- A build that checks overflow panics on a summary exactly if the clock of the client, which shows a
-- time of 64 bits, is behind the time at which the server has received the latest snapshot of the
-- summary.
pub display-panic_iff :
    (format_duration : Duration → List ℕ) (t : ℕ) (s : Summary)
    → t < 2 ^ 64
    → (display true format_duration (some t) s ≡ panic) ↔ (t < s.arrival_time)
unfolding display
display-panic_iff f t s h =
    subst
      (λ now.
        ((latency true now s.arrival_time >>= λ d. ok (text d)) ≡ panic) ↔ (t < s.arrival_time))
      (small t h) (panics_iff t s.arrival_time text)
  where
    text : ℕ → List ℕ
    text d =
        codes "Latency to now "
        ++ nanos_pretty f d
        ++ codes ":\nSpread: "
        ++ format_f64 8 s.spread
        ++ codes "\nBids:\n"
        ++ rows s.bids
        ++ codes "Asks:\n"
        ++ rows s.asks

    small : (t : ℕ) → t < 2 ^ 64 → t ≡ t % 2 ^ 64
    small t h = omega arith

-- The line of a level shows its price to eight places and its amount to four, each the nearest number
-- with so many places, and the name of its exchange, if price and amount are finite.
pub row-IsRounded :
    (l : Level)
    → l.price.magnitude < infinite
    → l.amount.magnitude < infinite
    → (p : ℕ) × (price : List ℕ) × (q : ℕ) × (amount : List ℕ) × (row l
        ≡ codes "  "
          ++ right 10 (sign l.price.negative ++ price)
          ++ codes " : "
          ++ right 10 (sign l.amount.negative ++ amount)
          ++ codes " ["
          ++ codes l.exchange
          ++ codes "]\n")
      × (read_fixed 8 price ≡ some p)
      × IsRounded (units l.price.magnitude * 10 ^ 8) (2 ^ 1074) p
      × (read_fixed 4 amount ≡ some q)
      × IsRounded (units l.amount.magnitude * 10 ^ 4) (2 ^ 1074) q
row-IsRounded l h k =
    let (p, price, e, r, w) = format_f64-IsRounded 8 l.price h in
    let (q, amount, e', r', w') = format_f64-IsRounded 4 l.amount k in
    (
      p,
      price,
      q,
      amount,
      ap₂
          (λ s t.
            codes "  "
            ++ right 10 s
            ++ codes " : "
            ++ right 10 t
            ++ codes " ["
            ++ codes l.exchange
            ++ codes "]\n")
          e e',
      r,
      w,
      r',
      w',
    )
