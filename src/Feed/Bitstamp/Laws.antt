-- ===== src/Feed/Bitstamp/Laws.antt =====
-- What a Bitstamp message gives: nothing unless it is data of the channel, and otherwise the levels
-- of positive quantity among the first `n` entries of each side, skipping entries without texts.
use text.Mathlib.Text.{◌==◌ as str_eq}
use aggbook.Prelude.{
  ℕ, ◌≤◌, ◌≡◌, refl, ap, ◌∙◌, sym, Bool, true, false, String, Option, some, none, List, [], ◌∷◌,
  ◌++◌, length, length-append, take, Outcome, ok, err, panic, ◌>>=◌, >>=-eq-ok, >>=-map_map,
  ok-injective, ok_or, if◌then◌else◌, arith, fun_ext,
}
use aggbook.Float.{F64, zero_f64, gt}
use aggbook.Float.Parse.{parse_f64}
use aggbook.Sources.{bitstamp}
use aggbook.Book.{ContributorSnapshot, new_snapshot, push_bid, push_ask}
use aggbook.Feed.{Json, json_error, float_error}
use aggbook.Feed.Entries.{after}
use aggbook.Feed.Bitstamp.{
  push_texts, push_entries, event_of, channel_of, entries_of, parse_bitstamp_update,
}

-- The numbers of two texts, if both are there.
abbrev pub read_texts : Option String → Option String → Outcome (List (F64 × F64))
read_texts (some p) (some q) = do
  price ← ok_or float_error (parse_f64 p)
  qty ← ok_or float_error (parse_f64 q)
  ok ((price, qty) ∷ [])
read_texts _ _ = ok []

module _ (json : Json) where
  open json use {Value, from_str, at_index, as_str}

  -- The numbers of some entries, in order, without the entries that lack a text; the first text that
  -- is no number decides the outcome.
  abbrev pub read_entries : List Value → Outcome (List (F64 × F64))
  read_entries [] = ok []
  read_entries (e ∷ es) = do
    p ← read_texts (as_str (at_index e 0)) (as_str (at_index e 1))
    ps ← read_entries es
    ok (p ++ ps)

  push_texts-after :
      (push : F64 → F64 → ContributorSnapshot → ContributorSnapshot) (p q : Option String)
      (s : ContributorSnapshot)
      → push_texts json push p q s ≡ (read_texts p q >>= λ ps. ok (after push ps s))
  unfolding push_texts
  push_texts-after push none q s = refl
  push_texts-after push (some p) none s = refl
  push_texts-after push (some p) (some q) s = ground arith

  after-append :
      (push : F64 → F64 → ContributorSnapshot → ContributorSnapshot) (ps qs : List (F64 × F64))
      (s : ContributorSnapshot)
      → after push (ps ++ qs) s ≡ after push qs (after push ps s)
  after-append push [] qs s = refl
  after-append push ((p, q) ∷ ps) qs s =
      after-append push ps qs (if gt q zero_f64 then push p q s else s)

  append_step :
      (push : F64 → F64 → ContributorSnapshot → ContributorSnapshot) (s : ContributorSnapshot)
      (a r : Outcome (List (F64 × F64))) (k : ContributorSnapshot → Outcome ContributorSnapshot)
      → ((t : ContributorSnapshot) → k t ≡ (r >>= λ ps. ok (after push ps t)))
      → ((a >>= λ ps. ok (after push ps s)) >>= k)
        ≡ ((a >>= λ p. r >>= λ ps. ok (p ++ ps)) >>= λ ps. ok (after push ps s))
  append_step push s (ok p) r k h =
      h (after push p s)
      ∙ ap (λ g. r >>= g) (fun_ext λ ps. ap ok (sym (after-append push p ps s)))
      ∙ sym (>>=-map_map r (λ ps. p ++ ps) (λ ps. after push ps s))
  append_step push s (err e) r k h = refl
  append_step push s panic r k h = refl

  push_entries-after :
      (push : F64 → F64 → ContributorSnapshot → ContributorSnapshot) (es : List Value)
      (s : ContributorSnapshot)
      → push_entries json push es s ≡ (read_entries es >>= λ ps. ok (after push ps s))
  unfolding push_entries
  push_entries-after push [] s = refl
  push_entries-after push (e ∷ es) s =
      rw (push_texts-after push (as_str (at_index e 0)) (as_str (at_index e 1)) s) (
        append_step push s (read_texts (as_str (at_index e 0)) (as_str (at_index e 1)))
          (read_entries es) (push_entries json push es) (push_entries-after push es))

  length-read_texts :
      (p q : Option String) {ps : List (F64 × F64)} → read_texts p q ≡ ok ps → length ps ≤ 1
  length-read_texts none q e = rw (← ok-injective e) (omega arith)
  length-read_texts (some p) none e = rw (← ok-injective e) (omega arith)
  length-read_texts (some p) (some q) e =
      let (x, _, first) = >>=-eq-ok (ok_or float_error (parse_f64 p)) _ e in
      let (y, _, second) = >>=-eq-ok (ok_or float_error (parse_f64 q)) _ first in
      rw (← ok-injective second) (omega arith)

  pub length-read_entries :
      (es : List Value) {ps : List (F64 × F64)} → read_entries es ≡ ok ps → length ps ≤ length es
  length-read_entries [] e = rw (← ok-injective e) (omega arith)
  length-read_entries (x ∷ es) e =
      let (p, h, first) =
        >>=-eq-ok (read_texts (as_str (at_index x 0)) (as_str (at_index x 1))) _ e in
      let (ps, k, second) = >>=-eq-ok (read_entries es) _ first in
      rw (← ok-injective second) (
        omega (
          arith,
          length-append p ps,
          length-read_texts (as_str (at_index x 0)) (as_str (at_index x 1)) h,
          length-read_entries es k,
        ))

  -- The entries of a side that are read.
  abbrev pub first_entries : ℕ → Value → String → List Value
  first_entries n v key = take n (entries_of json v key)

  -- Data of the channel.
  abbrev pub is_relevant : Value → String → Bool
  is_relevant v channel =
      if str_eq (event_of json v) "data" then str_eq (channel_of json v) channel else false

  abbrev pub read_value : ℕ → ℕ → Value → Outcome ContributorSnapshot
  read_value n time v = do
    bids ← read_entries (first_entries n v "bids")
    asks ← read_entries (first_entries n v "asks")
    ok (after (push_ask n) asks (after (push_bid n) bids (new_snapshot n bitstamp time)))

  -- What the parser is to give.
  abbrev pub reference : ℕ → String → String → ℕ → Outcome (Option ContributorSnapshot)
  reference n txt channel time = do
    v ← ok_or json_error (from_str txt)
    if is_relevant v channel then (read_value n time v >>= λ s. ok (some s)) else ok none

  two_steps :
      {S : Type 0} (x y : Outcome (List (F64 × F64))) (f : List (F64 × F64) → S)
      (g : List (F64 × F64) → S → S) (k : S → Outcome S)
      → ((s : S) → k s ≡ (y >>= λ q. ok (g q s)))
      → ((x >>= λ p. ok (f p)) >>= λ s. k s >>= λ t. ok (some t))
        ≡ ((x >>= λ p. y >>= λ q. ok (g q (f p))) >>= λ s. ok (some s))
  two_steps (ok p) y f g k h = ap (λ m. m >>= λ t. ok (some t)) (h (f p))
  two_steps (err e) y f g k h = refl
  two_steps panic y f g k h = refl

  two_tests :
      {S : Type 0} (a b : Bool) {x y : S} (z : S)
      → x ≡ y
      → (if a then (if b then x else z) else z) ≡ (if (if a then b else false) then y else z)
  two_tests true true z e = e
  two_tests true false z e = refl
  two_tests false b z e = refl

  push_sides-read_value :
      (n time : ℕ) (v : Value)
      → (push_entries json (push_bid n) (first_entries n v "bids") (new_snapshot n bitstamp time)
          >>= λ s. push_entries json (push_ask n) (first_entries n v "asks") s >>= λ t. ok (some t))
        ≡ (read_value n time v >>= λ s. ok (some s))
  push_sides-read_value n time v =
      rw (push_entries-after (push_bid n) (first_entries n v "bids") (new_snapshot n bitstamp time))
        (two_steps (read_entries (first_entries n v "bids"))
          (read_entries (first_entries n v "asks"))
          (λ ps. after (push_bid n) ps (new_snapshot n bitstamp time)) (after (push_ask n))
          (push_entries json (push_ask n) (first_entries n v "asks"))
          (push_entries-after (push_ask n) (first_entries n v "asks")))

  -- The parser is the reference on every message.
  pub parse_bitstamp_update-reference :
      (n : ℕ) (txt channel : String) (time : ℕ)
      → parse_bitstamp_update json n txt channel time ≡ reference n txt channel time
  unfolding parse_bitstamp_update
  parse_bitstamp_update-reference n txt channel time =
      ap (λ k. ok_or json_error (from_str txt) >>= k)
        (fun_ext λ v.
          two_tests (str_eq (event_of json v) "data") (str_eq (channel_of json v) channel) (ok none)
            (push_sides-read_value n time v))
