-- ===== src/Closing/Leaving.antt =====
-- The relays of a feed that can leave when the feed is shut down.
use aggbook.Prelude.{
  ℕ, zero, suc, ◌+◌, ◌≤◌, ◌<◌, inl, inr, Option-cases, get_elem?-lt, ◌≡◌, ◌≢◌, refl, sym, ap, ◌∙◌,
  false, String, Option, some, none, List, [], ◌∷◌, get_elem?, set, length, get_elem?-set_other,
  Outcome, ok, ◌==◌, arith,
}
use aggbook.Book.{ContributorSnapshot}
use aggbook.Feed.Task as Task
use aggbook.Relay as Relay
use aggbook.Relay.{Relay}
use aggbook.Client as Client
use aggbook.Pipeline.{Pipeline}

-- A relay can come to a send, where it hears the signal of the shutdown: it is there, or the feed's
-- latest value is a snapshot that it has not taken up.
abbrev pub CanEnd : Relay.Phase → Task.Feed → Relay → Type 0
CanEnd Relay.reading f r = (s : ContributorSnapshot) × (f.latest ≡ some (ok s))
CanEnd (Relay.sending s) f r = Unit
CanEnd Relay.waiting f r =
    ((s : ContributorSnapshot) × (f.latest ≡ some (ok s))) × (r.seen ≢ f.watch)
CanEnd Relay.ended f r = Unit

-- The sources of the places from `i` on can all end.
abbrev pub AllCanEnd : ℕ → Pipeline → Type 0
AllCanEnd i y =
    (j : ℕ) (r : Relay.System)
    → i ≤ j
    → get_elem? y.sources j ≡ some r
    → CanEnd r.relay.phase r.task.feed r.relay

abbrev pub leaving : List Relay.Event
leaving =
    Relay.of_relay Relay.changes
    ∷ Relay.of_relay Relay.reads
    ∷ Relay.of_relay (Relay.sends Client.shut_down)
    ∷ []

abbrev stopped : Task.Feed → Relay → Relay
stopped f r = Relay.act f r.phase (Relay.sends Client.shut_down) r

-- The actions of `leaving` one after the other.
unfoldable leave : Task.Feed → Relay → Relay
leave f r =
    let changed = Relay.act f r.phase Relay.changes r in
    stopped f (Relay.act f changed.phase Relay.reads changed)

stopped-on_read :
    (o : Option (Outcome ContributorSnapshot)) (s : ContributorSnapshot) (f : Task.Feed) (r : Relay)
    → o ≡ some (ok s)
    → (stopped f (Relay.on_read o r)).phase ≡ Relay.ended
unfolding Relay.act
stopped-on_read o s f r h = ap (λ o. (stopped f (Relay.on_read o r)).phase) h

leave-ended :
    (p : Relay.Phase) (f : Task.Feed) (r : Relay)
    → CanEnd p f r
    → (leave f (record r { phase = p })).phase ≡ Relay.ended
unfolding leave Relay.act
leave-ended Relay.reading f r (s, e) =
    stopped-on_read f.latest s f (record r { phase = Relay.reading }) e
leave-ended (Relay.sending s) f r k = refl
leave-ended Relay.waiting f r ((s, e), k) =
    rw (unseen r.seen f.watch k)
      (stopped-on_read f.latest s f (record r { phase = Relay.reading; seen = f.watch }) e)
  where
    unseen : (a b : ℕ) → a ≢ b → (a == b) ≡ false
    unseen a b h = ground (arith, h)
leave-ended Relay.ended f r k = refl

module _ (parse : String → ℕ → Outcome (Option ContributorSnapshot)) where
  pub run-leaving :
      (p : Relay.Phase) (r : Relay.System)
      → r.relay.phase ≡ p
      → CanEnd p r.task.feed r.relay
      → (Relay.run parse leaving r).relay.phase ≡ Relay.ended
  unfolding Relay.run leave
  run-leaving p r h k =
      ap (λ p. (leave r.task.feed (record r.relay { phase = p })).phase) h
      ∙ leave-ended p r.task.feed r.relay k

pub past_end : (xs : List Relay.System) (i : ℕ) → length xs ≤ i → get_elem? xs i ≡ none
past_end xs i h = elim (Option-cases (get_elem? xs i)) [
  | inl e ↦ e
  | inr (r, e) ↦ absurd (omega (arith, h, get_elem?-lt xs i e))
]

pub before_end :
    (xs : List Relay.System) (i : ℕ)
    → i < length xs
    → (r : Relay.System) × (get_elem? xs i ≡ some r)
before_end [] i h = absurd (omega (arith, h))
before_end (x ∷ xs) zero h = (x, refl)
before_end (x ∷ xs) (suc i) h = before_end xs i (omega (arith, h))

pub AllCanEnd-set :
    (i : ℕ) (r : Relay.System) (y : Pipeline)
    → AllCanEnd i y
    → AllCanEnd (i + 1) (record y { sources = set y.sources i r })
AllCanEnd-set i r y k j s l e =
    k j s (omega (arith, l))
      (sym (get_elem?-set_other y.sources i j r (λ e. omega (arith, l, e))) ∙ e)
