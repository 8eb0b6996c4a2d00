-- ===== src/Closing/Stuck.antt =====
-- A source whose task keeps the shutdown of its feed from returning.
use aggbook.Prelude.{
  ℕ, ◌+◌, ◌≤◌, ◌≡◌, ◌≢◌, refl, sym, ap, subst, ◌∙◌, inl, inr, true, false, Bool, Bool-cases, String,
  Option, some, none, List, [], ◌∷◌, get_elem?, set, get_elem?-none, get_elem?-set_self,
  get_elem?-set_other, Outcome, eq_of, ◌==◌, arith,
}
use mathlib.Core.Option.{some-injective}
use aggbook.Book.{ContributorSnapshot}
use aggbook.Summary.{Level}
use aggbook.Feed.Task as Task
use aggbook.Relay as Relay
use aggbook.Relay.History.{run-waiting}
use aggbook.Pipeline as Pipeline
use aggbook.Pipeline.{
  Pipeline, of_source, receives, closes, joins, of_client, can_happen, on_source, on_receive,
  on_client,
}
use aggbook.Closing.{
  Phase, uncalled, joining, awaiting, returned, Handle, absent, stored, awaited, Closing, Event,
  of_feed, stores, goes_on, held_back, has_ended, wait_complete, join, advance, store, step, run,
}
use aggbook.Closing.Sources.{on_receive-sources, on_client-rest}

-- A source whose feed's task has ended by the shutdown while its relay waits, with no version that it
-- has not seen.
pub record IsStuck (r : Relay.System) : Type 0 where
  pub task_closed : r.task.phase ≡ Task.closed
  pub relay_waiting : r.relay.phase ≡ Relay.waiting
  pub all_seen : r.relay.seen ≡ r.task.feed.watch

-- The call has not come past the source with this place.
abbrev pub IsBefore : ℕ → Phase → Type 0
IsBefore j uncalled = Unit
IsBefore j (joining i) = i ≤ j
IsBefore j _ = ⊥

step-IsStuck :
    (parse : String → ℕ → Outcome (Option ContributorSnapshot)) (e : Relay.Event) (r : Relay.System)
    → IsStuck r
    → Relay.step parse e r ≡ r
unfolding Relay.run
step-IsStuck parse e r k = run-waiting parse (e ∷ []) r k.task_closed k.relay_waiting k.all_seen

on_source-other :
    (parse : String → ℕ → Outcome (Option ContributorSnapshot)) (i j : ℕ) (e : Relay.Event)
    (o : Option Relay.System) (r : Relay.System) (y : Pipeline)
    → IsStuck r
    → get_elem? y.sources i ≡ o
    → get_elem? y.sources j ≡ some r
    → get_elem? (on_source parse i e o y).sources j ≡ some r
on_source-other parse i j e none r y k p q = q
on_source-other parse i j e (some a) r y k p q = elim (Bool-cases (can_happen e y)) [
  | inl h ↦ rw h (elim (Bool-cases (i == j)) [
    | inl d ↦
        let same : a ≡ r =
          some-injective _ _ (sym p ∙ ap (get_elem? y.sources) (eq_of i j d) ∙ q) in
        ap (get_elem? (set y.sources i (Relay.step parse e a))) (sym (eq_of i j d))
        ∙ get_elem?-set_self y.sources i (Relay.step parse e a) a p
        ∙ ap some (ap (Relay.step parse e) same ∙ step-IsStuck parse e r k)
    | inr d ↦
        get_elem?-set_other y.sources i j (Relay.step parse e a) (λ e. ground (arith, e, d)) ∙ q
  ])
  | inr h ↦ rw h q
]

advance-IsBefore :
    (f : Phase) (j : ℕ) (r : Relay.System) (y : Closing)
    → y.phase ≡ f
    → r.relay.phase ≡ Relay.waiting
    → get_elem? y.feed.sources j ≡ some r
    → IsBefore j f
    → IsBefore j (advance f y).phase
unfolding advance
advance-IsBefore uncalled j r y p w q h = omega arith
advance-IsBefore (joining i) j r y p w q h = at_source (get_elem? y.feed.sources i) refl
  where
    at_source :
        (o : Option Relay.System) → get_elem? y.feed.sources i ≡ o → IsBefore j (join i o y).phase
    at_source none g = absurd (omega (arith, h, get_elem?-none y.feed.sources i j g q))
    at_source (some a) g = elim (Bool-cases (has_ended a.relay.phase)) [
      | inl e ↦ rw e (less (i == j) refl e)
      | inr e ↦ rw e (subst (IsBefore j) (sym p) h)
    ]
      where
        less : (b : Bool) → (i == j) ≡ b → has_ended a.relay.phase ≡ true → i + 1 ≤ j
        less true d e = absurd (
            cc (
              sym e
              ∙ ap has_ended (
                  ap (λ (s : Relay.System). s.relay.phase)
                    (some-injective _ _ (sym g ∙ ap (get_elem? y.feed.sources) (eq_of i j d) ∙ q))
                  ∙ w)))
        less false d e = ground (arith, d, h)
advance-IsBefore awaiting j r y p w q h = absurd h
advance-IsBefore returned j r y p w q h = absurd h

store-rest :
    (h : Handle) (y : Closing) → ((store h y).phase ≡ y.phase) × ((store h y).feed ≡ y.feed)
store-rest absent y = (refl, refl)
store-rest stored y = (refl, refl)
store-rest awaited y = (refl, refl)

advance-feed : (f : Phase) (y : Closing) → (advance f y).feed ≡ y.feed
unfolding advance
advance-feed uncalled y = refl
advance-feed (joining i) y = at_source (get_elem? y.feed.sources i)
  where
    at_handle : (h : Handle) → (wait_complete h y).feed ≡ y.feed
    at_handle absent = refl
    at_handle stored = refl
    at_handle awaited = refl

    at_source : (o : Option Relay.System) → (join i o y).feed ≡ y.feed
    at_source none = at_handle y.handle
    at_source (some a) = elim (Bool-cases (has_ended a.relay.phase)) [ inl e ↦ rw e | inr e ↦ rw e ]
advance-feed awaiting y = elim (Bool-cases (Pipeline.is_running y.feed.publisher.phase)) [
  | inl e ↦ rw e
  | inr e ↦ rw e
]
advance-feed returned y = refl

module _ (array_push : List Level → Level → Outcome (List Level)) (n : ℕ)
    (parse : ℕ → String → ℕ → Outcome (Option ContributorSnapshot)) where
  feed-IsStuck :
      (e : Pipeline.Event) (j : ℕ) (r : Relay.System) (y : Pipeline)
      → IsStuck r
      → get_elem? y.sources j ≡ some r
      → get_elem? (Pipeline.step array_push n parse e y).sources j ≡ some r
  unfolding Pipeline.step
  feed-IsStuck (of_source i e) j r y k q =
      on_source-other (parse i) i j e (get_elem? y.sources i) r y k refl q
  feed-IsStuck receives j r y k q =
      ap (λ xs. get_elem? xs j) (on_receive-sources array_push n y.publisher.phase y.queue y) ∙ q
  feed-IsStuck closes j r y k q = q
  feed-IsStuck joins j r y k q = q
  feed-IsStuck (of_client i a) j r y k q =
      ap (λ xs. get_elem? xs j) (on_client-rest i a (get_elem? y.clients i) y).0 ∙ q

  pub step-IsBefore :
      (e : Event) (j : ℕ) (r : Relay.System) (y : Closing)
      → IsStuck r
      → get_elem? y.feed.sources j ≡ some r
      → IsBefore j y.phase
      → let y' = step array_push n parse e y in
        (get_elem? y'.feed.sources j ≡ some r) × IsBefore j y'.phase
  unfolding step
  step-IsBefore (of_feed e) j r y k q h = elim (Bool-cases (held_back e y)) [
    | inl b ↦ rw b (q, h)
    | inr b ↦ rw b (feed-IsStuck e j r y.feed k q, h)
  ]
  step-IsBefore stores j r y k q h =
      let (p, f) = store-rest y.handle y in
      (ap (λ (y : Pipeline). get_elem? y.sources j) f ∙ q, subst (IsBefore j) (sym p) h)
  step-IsBefore goes_on j r y k q h = (
    ap (λ (y : Pipeline). get_elem? y.sources j) (advance-feed y.phase y) ∙ q,
    advance-IsBefore y.phase j r y refl k.relay_waiting q h,
  )

  run-IsBefore :
      (es : List Event) (j : ℕ) (r : Relay.System) (y : Closing)
      → IsStuck r
      → get_elem? y.feed.sources j ≡ some r
      → IsBefore j y.phase
      → IsBefore j (run array_push n parse es y).phase
  unfolding run
  run-IsBefore [] j r y k q h = h
  run-IsBefore (e ∷ es) j r y k q h =
      let (q', h') = step-IsBefore e j r y k q h in
      run-IsBefore es j r (step array_push n parse e y) k q' h'

  -- If the feed's task of one source has ended by the shutdown while the relay of the source waits,
  -- with no version that it has not seen, before the call has come past this source, then whatever
  -- happens the shutdown of the feed does not return.
  pub run-ne-returned :
      (es : List Event) (j : ℕ) (r : Relay.System) (y : Closing)
      → IsStuck r
      → get_elem? y.feed.sources j ≡ some r
      → IsBefore j y.phase
      → (run array_push n parse es y).phase ≢ returned
  run-ne-returned es j r y k q h p = subst (IsBefore j) p (run-IsBefore es j r y k q h)
