-- ===== src/Closing/Blocked.antt =====
-- A feed whose shutdown does not return keeps the manager from the feeds after it.
use mathlib.Core.Option.{some-injective}
use aggbook.Prelude.{
  ℕ, zero, suc, ◌<◌, ◌≡◌, ◌≢◌, refl, sym, ap, subst, ◌∙◌, ◌⊎◌, inl, inr, true, false, Bool,
  Bool-cases, ◌&&◌, String, Option, Option-cases, some, List, [], ◌∷◌, get_elem?, get_elem?-set,
  get_elem?-set_other, Outcome, eq_of, ◌==◌, if◌then◌else◌, arith,
}
use aggbook.Book.{ContributorSnapshot}
use aggbook.Summary.{Level}
use aggbook.Relay as Relay
use aggbook.Closing as Closing
use aggbook.Closing.{
  Closing, uncalled, joining, awaiting, returned, absent, stored, awaited, of_feed, stores, goes_on,
}
use aggbook.Closing.Stuck.{IsStuck, IsBefore, step-IsBefore}
use aggbook.Closing.Drained.{Event, at, has_returned, all_returned, is_turn, step, run}

all_returned-at :
    (k i : ℕ) (ys : List Closing) (y : Closing)
    → i < k
    → get_elem? ys i ≡ some y
    → all_returned k ys ≡ true
    → has_returned y.phase ≡ true
all_returned-at zero i ys y l e h = absurd (omega (arith, l))
all_returned-at (suc k) i [] y l e h = absurd (cc e)
all_returned-at (suc k) zero (x ∷ ys) y l e h =
    ap (λ (y : Closing). has_returned y.phase) (sym (some-injective _ _ e))
    ∙ left (has_returned x.phase) (all_returned k ys) h
  where
    left : (a b : Bool) → (a && b) ≡ true → a ≡ true
    left true b h = refl
    left false b h = cc
all_returned-at (suc k) (suc i) (x ∷ ys) y l e h =
    all_returned-at k i ys y (omega (arith, l)) e
      (right (has_returned x.phase) (all_returned k ys) h)
  where
    right : (a b : Bool) → (a && b) ≡ true → b ≡ true
    right true b h = h
    right false b h = cc

-- The call waits at or before a source that does not end.
pub record IsBlocked (y : Closing) : Type 0 where
  pub place : ℕ
  pub source : Relay.System
  pub stuck : IsStuck source
  pub there : get_elem? y.feed.sources place ≡ some source
  pub before : IsBefore place y.phase

blocked-returned : (y : Closing) → IsBlocked y → has_returned y.phase ≡ false
blocked-returned y b = not_yet y.phase b.before
  where
    not_yet : (f : Closing.Phase) → IsBefore b.place f → has_returned f ≡ false
    not_yet uncalled h = refl
    not_yet (joining i) h = refl
    not_yet awaiting h = absurd h
    not_yet returned h = absurd h

module _ (array_push : List Level → Level → Outcome (List Level)) (n : ℕ)
    (parse : ℕ → ℕ → String → ℕ → Outcome (Option ContributorSnapshot)) where
  -- What an event may do to the feed with a place: nothing, or its own step, if that can happen.
  at_place :
      (e : Closing.Event) (k p : ℕ) (ys : List Closing) (y : Closing)
      → get_elem? ys p ≡ some y
      → let ys' = step array_push n parse (at k e) ys in
        (get_elem? ys' p ≡ some y)
        ⊎ ((is_turn e p ys ≡ true)
            × (get_elem? ys' p ≡ some (Closing.step array_push n (parse p) e y)))
  unfolding step
  at_place e k p ys y q = elim (Option-cases (get_elem? ys k)) [
    | inl none_there ↦ inl (rw none_there q)
    | inr (x, there) ↦ elim (Bool-cases (is_turn e k ys)) [
      | inl h ↦ elim (Bool-cases (k == p)) [
        | inl d ↦ inr (same x there h (eq_of k p d) d)
        | inr d ↦ inl (rw (there, h) (get_elem?-set_other ys k p _ (λ c. ground (arith, c, d)) ∙ q))
      ]
      | inr h ↦ inl (rw (there, h) q)
    ]
  ]
    where
      same :
          (x : Closing)
          → get_elem? ys k ≡ some x
          → is_turn e k ys ≡ true
          → k ≡ p
          → (k == p) ≡ true
          → (is_turn e p ys ≡ true)
            × (get_elem? (step array_push n parse (at k e) ys) p
                ≡ some (Closing.step array_push n (parse p) e y))
      same x there h c d = (
        subst (λ k. is_turn e k ys ≡ true) c h,
        rw (there, h)
            (get_elem?-set ys k p (Closing.step array_push n (parse k) e x) y q
              ∙ ap (λ b. some (if b then Closing.step array_push n (parse k) e x else y)) d
              ∙ ap some (
                  ap (λ k. Closing.step array_push n (parse k) e x) c
                  ∙ ap (Closing.step array_push n (parse p) e)
                      (some-injective _ _ (sym there ∙ ap (get_elem? ys) c ∙ q)))),
      )

  step-IsBlocked :
      (e : Closing.Event) (p : ℕ) (y : Closing)
      → IsBlocked y
      → IsBlocked (Closing.step array_push n (parse p) e y)
  step-IsBlocked e p y b =
      let (q, h) =
        step-IsBefore array_push n (parse p) e b.place b.source y b.stuck b.there b.before in
      record { place = b.place; source = b.source; stuck = b.stuck; there = q; before = h }

  -- Only the manager's loop calls the shutdown of a feed.
  step-uncalled :
      (e : Closing.Event) (p : ℕ) (z : Closing)
      → e ≢ goes_on
      → z.phase ≡ uncalled
      → (Closing.step array_push n (parse p) e z).phase ≡ uncalled
  unfolding Closing.step
  step-uncalled goes_on p z h u = absurd (h refl)
  step-uncalled stores p z h u = stored_one z.handle
    where
      stored_one : (h : Closing.Handle) → (Closing.store h z).phase ≡ uncalled
      stored_one absent = u
      stored_one stored = u
      stored_one awaited = u
  step-uncalled (of_feed e) p z h u = elim (Bool-cases (Closing.held_back e z)) [
    | inl b ↦ rw b u
    | inr b ↦ rw b u
  ]

  -- A blocked feed has its place in the queue, and so has one that was not called.
  abbrev HasBlocked : ℕ → List Closing → Type 0
  HasBlocked i ys = (y : Closing) × (get_elem? ys i ≡ some y) × IsBlocked y

  abbrev HasUncalled : ℕ → List Closing → Type 0
  HasUncalled j ys = (z : Closing) × (get_elem? ys j ≡ some z) × (z.phase ≡ uncalled)

  step-HasBlocked :
      (k i : ℕ) (e : Closing.Event) (ys : List Closing)
      → HasBlocked i ys
      → HasBlocked i (step array_push n parse (at k e) ys)
  step-HasBlocked k i e ys (y, q, b) = elim (at_place e k i ys y q) [
    | inl q' ↦ (y, q', b)
    | inr (_, q') ↦ (Closing.step array_push n (parse i) e y, q', step-IsBlocked e i y b)
  ]

  step-HasUncalled :
      (k i j : ℕ) (e : Closing.Event) (ys : List Closing)
      → i < j
      → HasBlocked i ys
      → HasUncalled j ys
      → HasUncalled j (step array_push n parse (at k e) ys)
  step-HasUncalled k i j e ys l (y, q, b) (z, p, u) = elim (at_place e k j ys z p) [
    | inl p' ↦ (z, p', u)
    | inr (t, p') ↦ (
      Closing.step array_push n (parse j) e z,
      p',
      step-uncalled e j z
          (λ g. cc (
            sym (blocked-returned y b)
            ∙ all_returned-at j i ys y l q (subst (λ e. is_turn e j ys ≡ true) g t)))
          u,
    )
  ]

  run-HasUncalled :
      (es : List Event) (i j : ℕ) (ys : List Closing)
      → i < j
      → HasBlocked i ys
      → HasUncalled j ys
      → HasUncalled j (run array_push n parse es ys)
  unfolding run
  run-HasUncalled [] i j ys l b u = u
  run-HasUncalled (at k e ∷ es) i j ys l b u =
      run-HasUncalled es i j (step array_push n parse (at k e) ys) l (step-HasBlocked k i e ys b)
        (step-HasUncalled k i j e ys l b u)

  -- One feed that is blocked, since a source that the call has not come past has ended while its relay
  -- waits with nothing new, keeps the shutdown of the manager from all feeds after it: whatever
  -- happens, a later feed that was not called is never called, so that it gets no signal.
  pub run-uncalled :
      (es : List Event) (i j : ℕ) (ys : List Closing) (y z : Closing)
      → i < j
      → get_elem? ys i ≡ some y
      → IsBlocked y
      → get_elem? ys j ≡ some z
      → z.phase ≡ uncalled
      → (z' : Closing) × (get_elem? (run array_push n parse es ys) j ≡ some z')
        × (z'.phase ≡ uncalled)
  run-uncalled es i j ys y z l q b p u = run-HasUncalled es i j ys l (y, q, b) (z, p, u)
