-- ===== src/Closing/Sources.antt =====
-- What an action of a feed leaves of its sources and of its publisher.
use mathlib.Core.Option.{some-injective}
use aggbook.Prelude.{
  eq_of, ℕ, ◌≡◌, ◌≢◌, refl, sym, ap, subst, ◌∙◌, inl, inr, Bool-cases, String, Option, some, none,
  List, [], ◌∷◌, get_elem?, get_elem?-set_inv, Outcome, ◌==◌, if◌then◌else◌,
}
use aggbook.Book.{ContributorSnapshot}
use aggbook.Summary.{Level}
use aggbook.Relay as Relay
use aggbook.Relay.{ended}
use aggbook.Publisher as Publisher
use aggbook.Publisher.{running, closed, crashed}
use aggbook.Client as Client
use aggbook.Client.{Client}
use aggbook.Pipeline.{
  Pipeline, Event, of_source, receives, closes, joins, of_client, can_happen, on_source, on_receive,
  on_client, step,
}

-- A source's task that has ended stays so.
abbrev pub Lasts : Relay.System → Relay.System → Type 0
Lasts r r' = r.relay.phase ≡ ended → r'.relay.phase ≡ ended

act-ended :
    (f : Relay.Phase) (a : Relay.Action) (t : _) (r : Relay.Relay)
    → r.phase ≡ f
    → f ≡ ended
    → (Relay.act t f a r).phase ≡ ended
unfolding Relay.act
act-ended Relay.ended Relay.reads t r h k = h
act-ended Relay.ended Relay.changes t r h k = h
act-ended Relay.ended (Relay.sends x) t r h k = h
act-ended Relay.reading a t r h k = cc
act-ended (Relay.sending s) a t r h k = cc
act-ended Relay.waiting a t r h k = cc

step-Lasts :
    (parse : String → ℕ → Outcome (Option ContributorSnapshot)) (e : Relay.Event) (r : Relay.System)
    → Lasts r (Relay.step parse e r)
unfolding Relay.step
step-Lasts parse (Relay.of_task e) r h = h
step-Lasts parse (Relay.of_relay a) r h = act-ended r.relay.phase a r.task.feed r.relay refl h

-- Where a source came from.
abbrev pub Stayed : List Relay.System → List Relay.System → Type 0
Stayed xs xs' =
    (j : ℕ) (r' : Relay.System)
    → get_elem? xs' j ≡ some r'
    → (r : Relay.System) × (get_elem? xs j ≡ some r) × Lasts r r'

Stayed-refl : (xs : List Relay.System) → Stayed xs xs
Stayed-refl xs j r e = (r, e, λ h. h)

on_source-Stayed :
    (parse : String → ℕ → Outcome (Option ContributorSnapshot)) (i : ℕ) (e : Relay.Event)
    (o : Option Relay.System) (y : Pipeline)
    → get_elem? y.sources i ≡ o
    → Stayed y.sources (on_source parse i e o y).sources
on_source-Stayed parse i e none y q = Stayed-refl y.sources
on_source-Stayed parse i e (some r) y q = elim (Bool-cases (can_happen e y)) [
  | inl h ↦ rw h (λ j r' p. came j r' (get_elem?-set_inv y.sources i j (Relay.step parse e r) p))
  | inr h ↦ rw h (Stayed-refl y.sources)
]
  where
    came :
        (j : ℕ) (r' : Relay.System)
        → ((a : Relay.System) × (get_elem? y.sources j ≡ some a)
            × (r' ≡ (if i == j then Relay.step parse e r else a)))
        → (a : Relay.System) × (get_elem? y.sources j ≡ some a) × Lasts a r'
    came j r' (a, p, k) = elim (Bool-cases (i == j)) [
      | inl h ↦ (
        a,
        p,
        λ d.
            ap (λ (s : Relay.System). s.relay.phase) (rw h at k)
            ∙ step-Lasts parse e r (
                subst (λ (s : Relay.System). s.relay.phase ≡ ended)
                  (some-injective _ _ (sym p ∙ ap (get_elem? y.sources) (sym (eq_of i j h)) ∙ q))
                  d),
      )
      | inr h ↦ (a, p, λ d. ap (λ (s : Relay.System). s.relay.phase) (rw h at k) ∙ d)
    ]

on_source-publisher :
    (parse : String → ℕ → Outcome (Option ContributorSnapshot)) (i : ℕ) (e : Relay.Event)
    (o : Option Relay.System) (y : Pipeline)
    → (on_source parse i e o y).publisher ≡ y.publisher
on_source-publisher parse i e none y = refl
on_source-publisher parse i e (some r) y = elim (Bool-cases (can_happen e y)) [
  | inl h ↦ rw h
  | inr h ↦ rw h
]

pub on_client-rest :
    (j : ℕ) (a : Client.Action) (o : Option Client) (y : Pipeline)
    → ((on_client j a o y).sources ≡ y.sources) × ((on_client j a o y).publisher ≡ y.publisher)
on_client-rest j a none y = (refl, refl)
on_client-rest j a (some c) y = (refl, refl)

module _ (array_push : List Level → Level → Outcome (List Level)) (n : ℕ) where
  pub on_receive-sources :
      (f : Publisher.Phase) (q : List ContributorSnapshot) (y : Pipeline)
      → (on_receive array_push n f q y).sources ≡ y.sources
  on_receive-sources running (s ∷ q) y = refl
  on_receive-sources running [] y = refl
  on_receive-sources closed q y = refl
  on_receive-sources crashed q y = refl

  on_receive-ne-running :
      (f : Publisher.Phase) (q : List ContributorSnapshot) (y : Pipeline)
      → y.publisher.phase ≡ f
      → f ≢ running
      → (on_receive array_push n f q y).publisher.phase ≢ running
  on_receive-ne-running running q y h k = absurd (k refl)
  on_receive-ne-running closed q y h k = λ e. k (sym h ∙ e)
  on_receive-ne-running crashed q y h k = λ e. k (sym h ∙ e)

  close-ne-running :
      (f : Publisher.Phase) (p : Publisher.Publisher)
      → p.phase ≡ f
      → (Publisher.on_event array_push n f Publisher.close p).phase ≢ running
  unfolding Publisher.on_event
  close-ne-running running p h = λ e. cc e
  close-ne-running closed p h = λ e. cc (sym h ∙ e)
  close-ne-running crashed p h = λ e. cc (sym h ∙ e)

  module _ (parse : ℕ → String → ℕ → Outcome (Option ContributorSnapshot)) where
    pub step-Stayed :
        (e : Event) (y : Pipeline) → Stayed y.sources (step array_push n parse e y).sources
    unfolding step
    step-Stayed (of_source i e) y = on_source-Stayed (parse i) i e (get_elem? y.sources i) y refl
    step-Stayed receives y =
        subst (Stayed y.sources) (sym (on_receive-sources y.publisher.phase y.queue y))
          (Stayed-refl y.sources)
    step-Stayed closes y = Stayed-refl y.sources
    step-Stayed joins y = Stayed-refl y.sources
    step-Stayed (of_client j a) y =
        subst (Stayed y.sources) (sym (on_client-rest j a (get_elem? y.clients j) y).0)
          (Stayed-refl y.sources)

    -- A publisher that has left its loop does not come back.
    pub step-ne-running :
        (e : Event) (y : Pipeline)
        → y.publisher.phase ≢ running
        → (step array_push n parse e y).publisher.phase ≢ running
    unfolding step
    step-ne-running (of_source i e) y h =
        subst (λ (p : Publisher.Publisher). p.phase ≢ running)
          (sym (on_source-publisher (parse i) i e (get_elem? y.sources i) y)) h
    step-ne-running receives y h = on_receive-ne-running y.publisher.phase y.queue y refl h
    step-ne-running closes y h = close-ne-running y.publisher.phase y.publisher refl
    step-ne-running joins y h = h
    step-ne-running (of_client j a) y h =
        subst (λ (p : Publisher.Publisher). p.phase ≢ running)
          (sym (on_client-rest j a (get_elem? y.clients j) y).1) h
