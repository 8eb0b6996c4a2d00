-- ===== src/Feed/Binance/Panics.antt =====
-- Which Binance messages panic the parser.
use aggbook.Prelude.{
  ℕ, ◌≡◌, refl, ap, ◌∙◌, sym, ◌⊎◌, inl, inr, ◌↔◌, String, Option, some, none, List, [], ◌∷◌, ok,
  panic, ◌>>=◌, >>=-eq-ok, ok_or, ok_or-eq-ok, All, subst,
}
use aggbook.Float.{F64}
use aggbook.Feed.{Json, json_error}
use aggbook.Feed.Binance.{read_number, parse_orderbook_update}
use aggbook.Feed.Binance.Laws.{
  read_entries, side_of, snapshot_of, read_value, parse_orderbook_update-reference,
}
use aggbook.Feed.Binance.Numbers.{
  bind-panic, IsRead, Panics, listed, side_of-listed, HasNumber-ok, read_number-ok,
  read_number-panic, no_text,
}

module _ (json : Json) where
  open json use {Value, from_str, get}

  read_entries-Panics : (es : List Value) → read_entries json es ≡ panic → Panics json es
  read_entries-Panics [] h = absurd (cc h)
  read_entries-Panics (e ∷ es) h = elim (bind-panic (read_number json e 0) _ h) [
    | inl a ↦ inl (inl (read_number-panic json e 0 a))
    | inr (p, a, h') ↦ elim (bind-panic (read_number json e 1) _ h') [
      | inl b ↦ inl (inr (read_number-ok json e 0 p a, read_number-panic json e 1 b))
      | inr (q, b, h'') ↦ elim (bind-panic (read_entries json es) _ h'') [
        | inl c ↦
            inr
              ((read_number-ok json e 0 p a, read_number-ok json e 1 q b), read_entries-Panics es c)
        | inr (ps, c, h''') ↦ absurd (cc h''')
      ]
    ]
  ]

  -- After the two numbers of an entry the outcome is that of the others.
  read_entries-cons :
      (e : Value) (es : List Value) (h : IsRead json e)
      → read_entries json (e ∷ es) ≡ (read_entries json es >>= λ ps. ok ((h.0.1, h.1.1) ∷ ps))
  read_entries-cons e es (a, b) =
      ap
        (λ m.
          m >>= λ p. read_number json e 1 >>= λ q. read_entries json es >>= λ ps. ok ((p, q) ∷ ps))
        (HasNumber-ok json e 0 a)
      ∙ ap (λ m. m >>= λ q. read_entries json es >>= λ ps. ok ((a.1, q) ∷ ps))
          (HasNumber-ok json e 1 b)

  Panics-read_entries : (es : List Value) → Panics json es → read_entries json es ≡ panic
  Panics-read_entries [] h = absurd h
  Panics-read_entries (e ∷ es) (inl (inl a)) =
      ap
        (λ m.
          m >>= λ p. read_number json e 1 >>= λ q. read_entries json es >>= λ ps. ok ((p, q) ∷ ps))
        (no_text json e 0 a)
  Panics-read_entries (e ∷ es) (inl (inr (a, b))) =
      ap
        (λ m.
          m >>= λ p. read_number json e 1 >>= λ q. read_entries json es >>= λ ps. ok ((p, q) ∷ ps))
        (HasNumber-ok json e 0 a)
      ∙ ap (λ m. m >>= λ q. read_entries json es >>= λ ps. ok ((a.1, q) ∷ ps)) (no_text json e 1 b)
  Panics-read_entries (e ∷ es) (inr (r, k)) =
      read_entries-cons e es r
      ∙ ap (λ m. m >>= λ ps. ok ((r.0.1, r.1.1) ∷ ps)) (Panics-read_entries es k)

  read_entries-IsRead :
      (es : List Value) {ps : List (F64 × F64)}
      → read_entries json es ≡ ok ps
      → All (IsRead json) es
  read_entries-IsRead [] h = tt
  read_entries-IsRead (e ∷ es) h =
      let (p, a, first) = >>=-eq-ok (read_number json e 0) _ h in
      let (q, b, second) = >>=-eq-ok (read_number json e 1) _ first in
      let (ps, c, third) = >>=-eq-ok (read_entries json es) _ second in
      ((read_number-ok json e 0 p a, read_number-ok json e 1 q b), read_entries-IsRead es c)

  IsRead-read_entries :
      (es : List Value)
      → All (IsRead json) es
      → (ps : List (F64 × F64)) × (read_entries json es ≡ ok ps)
  IsRead-read_entries [] h = ([], refl)
  IsRead-read_entries (e ∷ es) (r, h) =
      let (ps, k) = IsRead-read_entries es h in
      (
        (r.0.1, r.1.1) ∷ ps,
        read_entries-cons e es r ∙ ap (λ m. m >>= λ ps. ok ((r.0.1, r.1.1) ∷ ps)) k,
      )

  -- A side is read after the other: the bids first.
  abbrev pub PanicsAt : ℕ → Value → Type 0
  PanicsAt n v =
      Panics json (listed json n (get v "bids"))
      ⊎ (All (IsRead json) (listed json n (get v "bids"))
          × Panics json (listed json n (get v "asks")))

  read_value-PanicsAt : (n time : ℕ) (v : Value) → read_value json n time v ≡ panic → PanicsAt n v
  read_value-PanicsAt n time v h =
      elim (bind-panic (read_entries json (side_of json n v "bids")) _ h) [
        | inl a ↦ inl (
            subst (Panics json) (side_of-listed json n v "bids")
              (read_entries-Panics (side_of json n v "bids") a))
        | inr (bids, a, h') ↦ elim (bind-panic (read_entries json (side_of json n v "asks")) _ h') [
          | inl b ↦ inr (
            subst (All (IsRead json)) (side_of-listed json n v "bids")
                (read_entries-IsRead (side_of json n v "bids") a),
            subst (Panics json) (side_of-listed json n v "asks")
                (read_entries-Panics (side_of json n v "asks") b),
          )
          | inr (asks, b, h'') ↦ absurd (cc h'')
        ]
      ]

  PanicsAt-read_value : (n time : ℕ) (v : Value) → PanicsAt n v → read_value json n time v ≡ panic
  PanicsAt-read_value n time v (inl a) =
      ap
        (λ m. m >>= λ bids. read_entries json (side_of json n v "asks") >>= λ asks.
          ok (snapshot_of json n time bids asks))
        (ap (read_entries json) (side_of-listed json n v "bids")
          ∙ Panics-read_entries (listed json n (get v "bids")) a)
  PanicsAt-read_value n time v (inr (a, b)) =
      let (bids, h) = IsRead-read_entries (listed json n (get v "bids")) a in
      ap
        (λ m. m >>= λ bids. read_entries json (side_of json n v "asks") >>= λ asks.
          ok (snapshot_of json n time bids asks))
        (ap (read_entries json) (side_of-listed json n v "bids") ∙ h)
      ∙ ap (λ m. m >>= λ asks. ok (snapshot_of json n time bids asks))
          (ap (read_entries json) (side_of-listed json n v "asks")
            ∙ Panics-read_entries (listed json n (get v "asks")) b)

  -- A message panics the parser exactly if it is valid JSON and, among the first `n` bids and then the
  -- first `n` asks, the first entry of which a number cannot be read has no text there: its price is no
  -- text, or its price is that of a double and its quantity is no text.
  pub parse_orderbook_update-panic_iff :
      (n : ℕ) (payload : String) (time : ℕ)
      → (parse_orderbook_update json n payload time ≡ panic)
        ↔ ((v : Value) × (from_str payload ≡ some v) × PanicsAt n v)
  parse_orderbook_update-panic_iff n payload time = (there, back)
    where
      there :
          parse_orderbook_update json n payload time ≡ panic
          → (v : Value) × (from_str payload ≡ some v) × PanicsAt n v
      there h =
          elim (bind-panic (ok_or json_error (from_str payload)) (read_value json n time)
            (sym (parse_orderbook_update-reference json n payload time) ∙ h)) [
              | inl a ↦ absurd (not_json (from_str payload) a)
              | inr (v, a, h') ↦
                  (v, ok_or-eq-ok json_error (from_str payload) a, read_value-PanicsAt n time v h')
            ]
        where
          not_json : (o : Option Value) → ok_or json_error o ≡ panic → ⊥
          not_json none h = cc h
          not_json (some v) h = cc h

      back :
          ((v : Value) × (from_str payload ≡ some v) × PanicsAt n v)
          → parse_orderbook_update json n payload time ≡ panic
      back (v, a, p) =
          parse_orderbook_update-reference json n payload time
          ∙ ap (λ o. ok_or json_error o >>= read_value json n time) a
          ∙ PanicsAt-read_value n time v p
