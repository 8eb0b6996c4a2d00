-- ===== src/Feed/Bitstamp/Safety.antt =====
-- The Bitstamp parser never panics.
use aggbook.Prelude.{
  ℕ, ◌≢◌, refl, Bool, true, false, String, Option, some, none, List, [], ◌∷◌, ◌++◌, Outcome, ok,
  err, panic, ◌>>=◌, ok_or, if◌then◌else◌, arith,
}
use aggbook.Sources.{bitstamp}
use aggbook.Book.{new_snapshot, push_bid, push_ask}
use aggbook.Feed.{Json, json_error}
use aggbook.Feed.Entries.{after}
use aggbook.Feed.Bitstamp.{parse_bitstamp_update}
use aggbook.Feed.Bitstamp.Laws.{
  read_texts, read_entries, first_entries, is_relevant, read_value, parse_bitstamp_update-reference,
}

module _ (json : Json) where
  open json use {Value, from_str, at_index, as_str}

  read_texts-ne-panic : (p q : Option String) → read_texts p q ≢ panic
  read_texts-ne-panic none q e = cc
  read_texts-ne-panic (some p) none e = cc
  read_texts-ne-panic (some p) (some q) e = ground arith

  bind-ne-panic :
      {A B : Type 0} (m : Outcome A) (f : A → Outcome B)
      → m ≢ panic
      → ((a : A) → f a ≢ panic)
      → (m >>= f) ≢ panic
  bind-ne-panic (ok a) f h k = k a
  bind-ne-panic (err e) f h k = λ p. cc
  bind-ne-panic panic f h k = λ p. h refl

  read_entries-ne-panic : (es : List Value) → read_entries json es ≢ panic
  read_entries-ne-panic [] e = cc
  read_entries-ne-panic (x ∷ es) e =
      bind-ne-panic (read_texts (as_str (at_index x 0)) (as_str (at_index x 1))) _
        (read_texts-ne-panic (as_str (at_index x 0)) (as_str (at_index x 1)))
        (λ p.
          bind-ne-panic (read_entries json es) (λ ps. ok (p ++ ps)) (read_entries-ne-panic es)
            (λ ps e. cc))
        e

  read_value-ne-panic : (n time : ℕ) (v : Value) → read_value json n time v ≢ panic
  read_value-ne-panic n time v =
      bind-ne-panic (read_entries json (first_entries json n v "bids")) _
        (read_entries-ne-panic (first_entries json n v "bids"))
        (λ bids.
          bind-ne-panic (read_entries json (first_entries json n v "asks"))
            (λ asks.
              ok (after (push_ask n) asks (after (push_bid n) bids (new_snapshot n bitstamp time))))
            (read_entries-ne-panic (first_entries json n v "asks")) (λ asks e. cc))

  -- No message makes the Bitstamp parser panic.
  pub parse_bitstamp_update-ne-panic :
      (n : ℕ) (txt channel : String) (time : ℕ)
      → parse_bitstamp_update json n txt channel time ≢ panic
  parse_bitstamp_update-ne-panic n txt channel time =
      rw (parse_bitstamp_update-reference json n txt channel time) (
        bind-ne-panic (ok_or json_error (from_str txt)) _ (source (from_str txt))
          (λ v. value v (is_relevant json v channel)))
    where
      source : (o : Option Value) → ok_or json_error o ≢ panic
      source none e = cc
      source (some v) e = cc

      value :
          (v : Value) (b : Bool)
          → (if b then (read_value json n time v >>= λ s. ok (some s)) else ok none) ≢ panic
      value v true e =
          bind-ne-panic (read_value json n time v) (λ s. ok (some s)) (read_value-ne-panic n time v)
            (λ s e. cc) e
      value v false e = cc
