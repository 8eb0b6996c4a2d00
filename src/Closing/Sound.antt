-- ===== src/Closing/Sound.antt =====
-- What has come to an end when the shutdown of a feed returns.
use mathlib.Core.Option.{some-injective}
use aggbook.Prelude.{
  ℕ, ◌+◌, ◌<◌, ◌≡◌, ◌≢◌, refl, sym, ap, subst, ◌∙◌, ◌⊎◌, inl, inr, true, Bool-cases, String, Option,
  some, none, List, [], ◌∷◌, get_elem?, get_elem?-none, Outcome, if◌then◌else◌, arith,
}
use aggbook.Book.{ContributorSnapshot}
use aggbook.Summary.{Level}
use aggbook.Relay as Relay
use aggbook.Publisher as Publisher
use aggbook.Publisher.{running}
use aggbook.Pipeline as Pipeline
use aggbook.Pipeline.{Pipeline, is_running}
use aggbook.Closing.{
  Phase, uncalled, joining, awaiting, returned, Handle, absent, stored, awaited, Closing, Event,
  of_feed, stores, goes_on, held_back, has_ended, wait_complete, join, advance, store, step, run,
}
use aggbook.Closing.Sources.{step-Stayed, step-ne-running}

-- The task of every source before this place has ended.
abbrev Joined : ℕ → Pipeline → Type 0
Joined i y =
    (j : ℕ) (r : Relay.System)
    → j < i
    → get_elem? y.sources j ≡ some r
    → r.relay.phase ≡ Relay.ended

-- The tasks of all sources have ended.
abbrev pub AllJoined : Pipeline → Type 0
AllJoined y =
    (j : ℕ) (r : Relay.System) → get_elem? y.sources j ≡ some r → r.relay.phase ≡ Relay.ended

-- What holds where the call stands, if the publisher's handle was stored before the call.
abbrev Reached : Phase → Handle → Pipeline → Type 0
Reached uncalled h y = h ≡ stored
Reached (joining i) h y = (h ≡ stored) × Joined i y
Reached awaiting h y = AllJoined y
Reached returned h y = AllJoined y × (y.publisher.phase ≢ running)

lt_suc-cases : (i j : ℕ) → j < i + 1 → (j < i) ⊎ (j ≡ i)
lt_suc-cases i j l = ground (arith, l)

join-Reached :
    (i : ℕ) (o : Option Relay.System) (y : Closing)
    → y.phase ≡ joining i
    → get_elem? y.feed.sources i ≡ o
    → Reached (joining i) y.handle y.feed
    → let y' = join i o y in Reached y'.phase y'.handle y'.feed
join-Reached i none y p e (h, k) =
    subst (λ h. let y' = wait_complete h y in Reached y'.phase y'.handle y'.feed) (sym h)
      (λ j r q. k j r (get_elem?-none y.feed.sources i j e q) q)
join-Reached i (some r) y p e (h, k) = next r.relay.phase refl
  where
    next :
        (f : Relay.Phase)
        → r.relay.phase ≡ f
        → let y' : Closing = if has_ended f then record y { phase = joining (i + 1) } else y in
          Reached y'.phase y'.handle y'.feed
    next Relay.ended q = (
      h,
      λ j s l g. elim (lt_suc-cases i j l) [
        | inl a ↦ k j s a g
        | inr b ↦
            ap (λ (s : Relay.System). s.relay.phase)
              (some-injective _ _ (sym g ∙ ap (get_elem? y.feed.sources) b ∙ e))
            ∙ q
      ],
    )
    next Relay.reading q = subst (λ f. Reached f y.handle y.feed) (sym p) (h, k)
    next (Relay.sending s) q = subst (λ f. Reached f y.handle y.feed) (sym p) (h, k)
    next Relay.waiting q = subst (λ f. Reached f y.handle y.feed) (sym p) (h, k)

running_or : (f : Publisher.Phase) → (is_running f ≡ true) ⊎ (f ≢ running)
running_or running = inl refl
running_or Publisher.closed = inr (λ e. cc e)
running_or Publisher.crashed = inr (λ e. cc e)

advance-Reached :
    (f : Phase) (y : Closing)
    → y.phase ≡ f
    → Reached f y.handle y.feed
    → let y' = advance f y in Reached y'.phase y'.handle y'.feed
unfolding advance
advance-Reached uncalled y p h = (h, λ j r l _. absurd (omega (arith, l)))
advance-Reached (joining i) y p h = join-Reached i (get_elem? y.feed.sources i) y p refl h
advance-Reached awaiting y p h = awaited_lem y.feed.publisher.phase refl
  where
    awaited_lem :
        (f : Publisher.Phase)
        → y.feed.publisher.phase ≡ f
        → let y' : Closing = if is_running f then y else record y { phase = returned } in
          Reached y'.phase y'.handle y'.feed
    awaited_lem running q = subst (λ f. Reached f y.handle y.feed) (sym p) h
    awaited_lem Publisher.closed q = (h, λ e. cc (sym q ∙ e))
    awaited_lem Publisher.crashed q = (h, λ e. cc (sym q ∙ e))
advance-Reached returned y p h = subst (λ f. Reached f y.handle y.feed) (sym p) h

store-Reached :
    (h : Handle) (y : Closing)
    → y.handle ≡ h
    → Reached y.phase h y.feed
    → let y' = store h y in Reached y'.phase y'.handle y'.feed
store-Reached absent y q r = stored_lem y.phase r
  where
    stored_lem : (f : Phase) → Reached f absent y.feed → Reached f stored y.feed
    stored_lem uncalled r = refl
    stored_lem (joining i) (_, k) = (refl, k)
    stored_lem awaiting r = r
    stored_lem returned r = r
store-Reached stored y q r = subst (λ h. Reached y.phase h y.feed) (sym q) r
store-Reached awaited y q r = subst (λ h. Reached y.phase h y.feed) (sym q) r

module _ (array_push : List Level → Level → Outcome (List Level)) (n : ℕ)
    (parse : ℕ → String → ℕ → Outcome (Option ContributorSnapshot)) where
  feed-Reached :
      (f : Phase) (h : Handle) (e : Pipeline.Event) (y : Pipeline)
      → Reached f h y
      → Reached f h (Pipeline.step array_push n parse e y)
  feed-Reached uncalled h e y k = k
  feed-Reached (joining i) h e y (k, d) = (
    k,
    λ j r l q. let (a, p, lasts) = step-Stayed array_push n parse e y j r q in lasts (d j a l p),
  )
  feed-Reached awaiting h e y d =
      λ j r q. let (a, p, lasts) = step-Stayed array_push n parse e y j r q in lasts (d j a p)
  feed-Reached returned h e y (d, k) = (
    λ j r q. let (a, p, lasts) = step-Stayed array_push n parse e y j r q in lasts (d j a p),
    step-ne-running array_push n parse e y k,
  )

  step-Reached :
      (e : Event) (y : Closing)
      → Reached y.phase y.handle y.feed
      → let y' = step array_push n parse e y in Reached y'.phase y'.handle y'.feed
  unfolding step
  step-Reached (of_feed e) y h = elim (Bool-cases (held_back e y)) [
    | inl b ↦ rw b h
    | inr b ↦ rw b (feed-Reached y.phase y.handle e y.feed h)
  ]
  step-Reached stores y h = store-Reached y.handle y refl h
  step-Reached goes_on y h = advance-Reached y.phase y refl h

  run-Reached :
      (es : List Event) (y : Closing)
      → Reached y.phase y.handle y.feed
      → let y' = run array_push n parse es y in Reached y'.phase y'.handle y'.feed
  unfolding run
  run-Reached [] y h = h
  run-Reached (e ∷ es) y h = run-Reached es (step array_push n parse e y) (step-Reached e y h)

  -- When the shutdown of a feed has returned, the task of every source has ended and the publisher
  -- has left its loop, whatever the tasks did in between, if the handle of the publisher was stored
  -- before the call.
  pub run-AllJoined :
      (es : List Event) (y : Closing)
      → y.phase ≡ uncalled
      → y.handle ≡ stored
      → let y' = run array_push n parse es y in
        y'.phase ≡ returned → AllJoined y'.feed × (y'.feed.publisher.phase ≢ running)
  run-AllJoined es y p h q =
      let y' = run array_push n parse es y in
      subst (λ f. Reached f y'.handle y'.feed) q
        (run-Reached es y (subst (λ f. Reached f y.handle y.feed) (sym p) h))
