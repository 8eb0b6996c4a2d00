-- ===== src/Feed/Bitstamp/Relevance.antt =====
-- Which Bitstamp messages give a snapshot, and what is in it.
use mathlib.Core.Option.{some-injective}
use aggbook.Prelude.{
  ℕ, ◌≡◌, ◌↔◌, refl, ap, ◌∙◌, sym, subst, Bool, String, Option, none, Outcome, true, false, String,
  some, none, List, length-take, ok, ◌>>=◌, >>=-eq-ok, ok-injective, ok_or, ok_or-eq-ok,
  if◌then◌else◌, arith,
}
use aggbook.Float.{F64}
use aggbook.Sources.{bitstamp}
use aggbook.Book.{ContributorSnapshot}
use aggbook.Feed.{Json, json_error}
use aggbook.Feed.Entries.{IsSnapshot, after-IsSnapshot}
use aggbook.Feed.Bitstamp.{entries_of, parse_bitstamp_update}
use aggbook.Feed.Bitstamp.Message.{take-unwrap_or, IsDataOf, listed, is_relevant_iff}
use aggbook.Feed.Bitstamp.Laws.{
  read_entries, length-read_entries, first_entries, is_relevant, read_value,
  parse_bitstamp_update-reference,
}

module _ (json : Json) where
  open json use {Value, from_str, at_index, as_str}

  listed-first_entries :
      (n : ℕ) (v : Value) (key : String) → first_entries json n v key ≡ listed json n v key
  listed-first_entries n v key =
      take-unwrap_or n (json.as_array (json.at_key (json.at_key v "data") key))

  -- A message that gives a snapshot is data of the subscribed channel. The snapshot is of Bitstamp,
  -- with the time of arrival, and its levels are those of positive quantity among the entries with two
  -- texts of the first `n` of each side, which are the arrays under "bids" and "asks" of "data", in
  -- their order.
  pub parse_bitstamp_update-IsSnapshot :
      (n : ℕ) (txt channel : String) (time : ℕ) {s : ContributorSnapshot}
      → parse_bitstamp_update json n txt channel time ≡ ok (some s)
      → (v : Value) × (bids : List (F64 × F64)) × (asks : List (F64 × F64)) × (from_str txt
          ≡ some v)
        × IsDataOf json channel v
        × (read_entries json (listed json n v "bids") ≡ ok bids)
        × (read_entries json (listed json n v "asks") ≡ ok asks)
        × IsSnapshot n bitstamp time bids asks s
  parse_bitstamp_update-IsSnapshot n txt channel time {s} e =
      let (v, h, first) =
        >>=-eq-ok (ok_or json_error (from_str txt)) _
          (sym (parse_bitstamp_update-reference json n txt channel time) ∙ e) in
      let (r, second) = relevant v (is_relevant json v channel) first in
      let (t, third, fourth) = >>=-eq-ok (read_value json n time v) (λ s. ok (some s)) second in
      let (bids, hb, fifth) =
        >>=-eq-ok (read_entries json (first_entries json n v "bids")) _ third in
      let (asks, ha, sixth) =
        >>=-eq-ok (read_entries json (first_entries json n v "asks")) _ fifth in
      (
        v,
        bids,
        asks,
        ok_or-eq-ok json_error (from_str txt) h,
        (is_relevant_iff json v channel).0 r,
        ap (read_entries json) (sym (listed-first_entries n v "bids")) ∙ hb,
        ap (read_entries json) (sym (listed-first_entries n v "asks")) ∙ ha,
        subst (IsSnapshot n bitstamp time bids asks)
            (ok-injective sixth ∙ some-injective _ _ (ok-injective fourth))
            (after-IsSnapshot n bitstamp time bids asks
              (omega (
                arith,
                length-read_entries json (first_entries json n v "bids") hb,
                length-take n (entries_of json v "bids"),
              ))
              (omega (
                arith,
                length-read_entries json (first_entries json n v "asks") ha,
                length-take n (entries_of json v "asks"),
              ))),
      )
    where
      relevant :
          (v : Value) (b : Bool)
          → (if b then (read_value json n time v >>= λ s. ok (some s)) else ok none) ≡ ok (some s)
          → (b ≡ true) × ((read_value json n time v >>= λ s. ok (some s)) ≡ ok (some s))
      relevant v true e = (refl, e)
      relevant v false e = cc

  -- A message is passed over exactly if it is valid JSON but no data of the subscribed channel.
  pub parse_bitstamp_update-none_iff :
      (n : ℕ) (txt channel : String) (time : ℕ)
      → (parse_bitstamp_update json n txt channel time ≡ ok none)
        ↔ ((v : Value) × (from_str txt ≡ some v) × ¬ IsDataOf json channel v)
  parse_bitstamp_update-none_iff n txt channel time = (there, back)
    where
      branch : Value → Bool → Outcome (Option ContributorSnapshot)
      branch v b = if b then (read_value json n time v >>= λ s. ok (some s)) else ok none

      irrelevant : (v : Value) (b : Bool) → branch v b ≡ ok none → b ≡ false
      irrelevant v false e = refl
      irrelevant v true e =
          let (s, _, k) = >>=-eq-ok (read_value json n time v) (λ s. ok (some s)) e in
          absurd (cc (ok-injective k))

      there :
          parse_bitstamp_update json n txt channel time ≡ ok none
          → (v : Value) × (from_str txt ≡ some v) × ¬ IsDataOf json channel v
      there e =
          let (v, h, k) =
            >>=-eq-ok (ok_or json_error (from_str txt)) (λ v. branch v (is_relevant json v channel))
              (sym (parse_bitstamp_update-reference json n txt channel time) ∙ e) in
          (
            v,
            ok_or-eq-ok json_error (from_str txt) h,
            λ d. cc (
                sym ((is_relevant_iff json v channel).1 d)
                ∙ irrelevant v (is_relevant json v channel) k),
          )

      other :
          (v : Value) (b : Bool)
          → is_relevant json v channel ≡ b
          → ¬ IsDataOf json channel v
          → b ≡ false
      other v true h d = absurd (d ((is_relevant_iff json v channel).0 h))
      other v false h d = refl

      back :
          ((v : Value) × (from_str txt ≡ some v) × ¬ IsDataOf json channel v)
          → parse_bitstamp_update json n txt channel time ≡ ok none
      back (v, h, d) =
          parse_bitstamp_update-reference json n txt channel time
          ∙ ap (λ o. ok_or json_error o >>= λ v. branch v (is_relevant json v channel)) h
          ∙ ap (branch v) (other v (is_relevant json v channel) refl d)
