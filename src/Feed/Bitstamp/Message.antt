-- ===== src/Feed/Bitstamp/Message.antt =====
-- A Bitstamp message described by the keys of its JSON.
use text.Mathlib.Text.{◌==◌ as str_eq}
use text.Mathlib.TextEquality.{eq_iff}
use aggbook.Prelude.{
  ℕ, zero, suc, ◌≡◌, refl, ap, ◌∙◌, sym, ◌⊎◌, inl, inr, ◌↔◌, Bool, true, false, String, Option,
  some, none, List, [], take, unwrap_or, if◌then◌else◌,
}
use aggbook.Feed.{Json}
use aggbook.Feed.Bitstamp.{event_of, channel_of}
use aggbook.Feed.Bitstamp.Laws.{is_relevant}

-- The first `n` entries of an array, and none of what is no array.
abbrev pub first_of {ℓ} : {A : Type ℓ} → ℕ → Option (List A) → List A
first_of n none = []
first_of n (some es) = take n es

pub take-unwrap_or {ℓ} :
    {A : Type ℓ} (n : ℕ) (o : Option (List A)) → take n (unwrap_or [] o) ≡ first_of n o
take-unwrap_or zero none = refl
take-unwrap_or (suc n) none = refl
take-unwrap_or n (some es) = refl

unwrap_data : (o : Option String) → str_eq (unwrap_or "" o) "data" ≡ true → o ≡ some "data"
unwrap_data none h = cc
unwrap_data (some e) h = ap some ((eq_iff e "data").0 h)

module _ (json : Json) where
  open json use {Value, from_str, get, at_key, at_index, as_array, as_str}

  -- Data of the channel: the text under "event" is "data", and the one under "channel" is the
  -- channel, or there is none and the channel is empty.
  pub record IsDataOf (channel : String) (v : Value) : Type 0 where
    pub event : (e : Value) × (get v "event" ≡ some e) × (as_str e ≡ some "data")
    pub channel_at :
        (as_str (at_key v "channel") ≡ some channel)
        ⊎ ((as_str (at_key v "channel") ≡ none) × (channel ≡ ""))

  -- The entries of a side that are read: the first `n` of the array under "data".
  abbrev pub listed : ℕ → Value → String → List Value
  listed n v key = first_of n (as_array (at_key (at_key v "data") key))

  event-data :
      (o : Option Value)
      → str_eq (unwrap_or "" (elim o [ none ↦ none | some e ↦ as_str e ])) "data" ≡ true
      → (e : Value) × (o ≡ some e) × (as_str e ≡ some "data")
  event-data none h = cc
  event-data (some e) h = (e, refl, unwrap_data (as_str e) h)

  channel-same :
      (o : Option String) (channel : String)
      → str_eq (unwrap_or "" o) channel ≡ true
      → (o ≡ some channel) ⊎ ((o ≡ none) × (channel ≡ ""))
  channel-same none channel h = inr (refl, sym ((eq_iff "" channel).0 h))
  channel-same (some c) channel h = inl (ap some ((eq_iff c channel).0 h))

  same-channel :
      (o : Option String) (channel : String)
      → (o ≡ some channel) ⊎ ((o ≡ none) × (channel ≡ ""))
      → str_eq (unwrap_or "" o) channel ≡ true
  same-channel o channel (inl e) =
      ap (λ o. str_eq (unwrap_or "" o) channel) e ∙ (eq_iff channel channel).1 refl
  same-channel o channel (inr (e, c)) =
      ap (λ o. str_eq (unwrap_or "" o) channel) e ∙ (eq_iff "" channel).1 (sym c)

  pub is_relevant_iff :
      (v : Value) (channel : String) → (is_relevant json v channel ≡ true) ↔ IsDataOf channel v
  is_relevant_iff v channel = (there (str_eq (event_of json v) "data") refl, back)
    where
      there :
          (b : Bool)
          → str_eq (event_of json v) "data" ≡ b
          → (if b then str_eq (channel_of json v) channel else false) ≡ true
          → IsDataOf channel v
      there true h k = record {
        event = event-data (get v "event") h;
        channel_at = channel-same (as_str (at_key v "channel")) channel k;
      }
      there false h k = cc

      back : IsDataOf channel v → is_relevant json v channel ≡ true
      back d =
          let (e, g, a) = d.event in
          ap
            (λ o.
              if str_eq
                (unwrap_or "" (elim o as (λ _. Option String) [ none ↦ none | some e ↦ as_str e ]))
                "data"
              then str_eq (channel_of json v) channel
              else false)
            g
          ∙ ap
              (λ o.
                if str_eq (unwrap_or "" o) "data"
                then str_eq (channel_of json v) channel
                else false)
              a
          ∙ same-channel (as_str (at_key v "channel")) channel d.channel_at
