-- ===== src/Feed/Binance/Numbers.antt =====
-- The numbers of a Binance message, described by the keys of its JSON.
use aggbook.Prelude.{
  ℕ, ◌≡◌, refl, ap, ◌∙◌, ◌⊎◌, inl, inr, String, Option, some, none, List, [], ◌∷◌, take, Outcome,
  ok, err, panic, ◌>>=◌, unwrap, ok_or, ok_or-eq-ok,
}
use aggbook.Float.{F64}
use aggbook.Float.Parse.{parse_f64}
use aggbook.Feed.{Json, float_error}
use aggbook.Feed.Binance.{read_number}
use aggbook.Feed.Binance.Laws.{first_entries, side_of}

-- A chain panics where its first part does, or gives what the rest panics on.
pub bind-panic :
    {A B : Type 0} (m : Outcome A) (f : A → Outcome B)
    → (m >>= f) ≡ panic
    → (m ≡ panic) ⊎ ((a : A) × (m ≡ ok a) × (f a ≡ panic))
bind-panic (ok a) f h = inr (a, refl, h)
bind-panic (err e) f h = absurd (cc h)
bind-panic panic f h = inl refl

module _ (json : Json) where
  open json use {Value, from_str, get, at_index, as_array, as_str}

  -- The text at an index of an entry is that of a double.
  abbrev pub HasNumber : Value → ℕ → Type 0
  HasNumber e i =
      (t : String) × (p : F64) × (as_str (at_index e i) ≡ some t) × (parse_f64 t ≡ some p)

  -- Price and quantity can be read.
  abbrev pub IsRead : Value → Type 0
  IsRead e = HasNumber e 0 × HasNumber e 1

  -- The price is no text, or it can be read and the quantity is no text.
  abbrev pub LacksText : Value → Type 0
  LacksText e = (as_str (at_index e 0) ≡ none) ⊎ (HasNumber e 0 × (as_str (at_index e 1) ≡ none))

  -- The first entry that cannot be read is one that lacks a text.
  abbrev pub Panics : List Value → Type 0
  Panics [] = ⊥
  Panics (e ∷ es) = LacksText e ⊎ (IsRead e × Panics es)

  -- The first `n` entries of the array under a key, if there is one.
  abbrev pub listed : ℕ → Option Value → List Value
  listed n none = []
  listed n (some v) = elim (as_array v) [ none ↦ [] | some es ↦ take n es ]

  pub side_of-listed :
      (n : ℕ) (v : Value) (key : String) → side_of json n v key ≡ listed n (get v key)
  side_of-listed n v key = at_side (get v key)
    where
      inside :
          (o : Option (List Value))
          → first_entries json n o ≡ elim o [ none ↦ [] | some es ↦ take n es ]
      inside none = refl
      inside (some es) = refl

      at_side :
          (o : Option Value)
          → first_entries json n (elim o [ none ↦ none | some v ↦ as_array v ]) ≡ listed n o
      at_side none = refl
      at_side (some v) = inside (as_array v)

  read_text : Option String → Outcome F64
  read_text o = unwrap o >>= λ t. ok_or float_error (parse_f64 t)

  read_text-panic : (o : Option String) → read_text o ≡ panic → o ≡ none
  unfolding read_text
  read_text-panic none h = refl
  read_text-panic (some t) h = absurd (number (parse_f64 t) h)
    where
      number : (o : Option F64) → ok_or float_error o ≡ panic → ⊥
      number none h = cc h
      number (some p) h = cc h

  read_text-ok :
      (o : Option String) (p : F64)
      → read_text o ≡ ok p
      → (t : String) × (p : F64) × (o ≡ some t) × (parse_f64 t ≡ some p)
  unfolding read_text
  read_text-ok none p h = absurd (cc h)
  read_text-ok (some t) p h = (t, p, refl, ok_or-eq-ok float_error (parse_f64 t) h)

  pub HasNumber-ok : (e : Value) (i : ℕ) → (h : HasNumber e i) → read_number json e i ≡ ok h.1
  unfolding read_number
  HasNumber-ok e i (t, p, h, k) =
      ap (λ o. unwrap o >>= λ t. ok_or float_error (parse_f64 t)) h ∙ ap (ok_or float_error) k

  pub read_number-ok : (e : Value) (i : ℕ) (p : F64) → read_number json e i ≡ ok p → HasNumber e i
  unfolding read_number read_text
  read_number-ok e i p h = read_text-ok (as_str (at_index e i)) p h

  pub read_number-panic :
      (e : Value) (i : ℕ) → read_number json e i ≡ panic → as_str (at_index e i) ≡ none
  unfolding read_number read_text
  read_number-panic e i h = read_text-panic (as_str (at_index e i)) h

  pub no_text : (e : Value) (i : ℕ) → as_str (at_index e i) ≡ none → read_number json e i ≡ panic
  unfolding read_number
  no_text e i h = ap (λ o. unwrap o >>= λ t. ok_or float_error (parse_f64 t)) h
