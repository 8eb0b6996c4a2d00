-- ===== src/Publisher/History.antt =====
-- What a publisher has stored after any history of events.
use aggbook.Prelude.{
  ℕ, ◌+◌, ◌≡◌, refl, sym, ap, subst, ◌∙◌, ◌⊎◌, inl, inr, List, [], ◌∷◌, ◌++◌, length, map, Outcome,
  ok, err, panic, arith,
}
use aggbook.Book.{ContributorSnapshot, update_snapshot}
use aggbook.Book.Combined.{updates}
use aggbook.Summary.{Level, Summary, to_proto}
use aggbook.Publisher.{
  shutdown, fine, failed, running, closed, crashed, Publisher, Event, snapshot, close, publish,
  on_summary, on_event, run,
}
use aggbook.Prelude.{some}

module _ (array_push : List Level → Level → Outcome (List Level)) (n : ℕ) where
  -- What a publisher in its loop has become from the state `p` by a history of snapshots: it combines
  -- all of them, it has notified the watchers once for each, and it has stored the summary of what it
  -- combines, or still what it had stored if there was no snapshot.
  pub record Reached (ss : List ContributorSnapshot) (p q : Publisher) : Type 0 where
    pub combines : q.combined ≡ updates ss p.combined
    pub notified : q.watch ≡ p.watch + length ss
    pub current :
        ((ss ≡ []) × (q.latest ≡ p.latest))
        ⊎ ((s : Summary) × (q.latest ≡ fine (some s)) × (to_proto array_push n q.combined ≡ ok s))

  on_event-crashed : (e : Event) (p : Publisher) → on_event array_push n crashed e p ≡ p
  unfolding on_event
  on_event-crashed (snapshot s) p = refl
  on_event-crashed close p = refl

  on_event-closed : (e : Event) (p : Publisher) → on_event array_push n closed e p ≡ p
  unfolding on_event
  on_event-closed (snapshot s) p = refl
  on_event-closed close p = refl

  run-crashed : (es : List Event) (p : Publisher) → p.phase ≡ crashed → run array_push n es p ≡ p
  unfolding run
  run-crashed [] p h = refl
  run-crashed (e ∷ es) p h =
      ap (run array_push n es)
        (subst (λ f. on_event array_push n f e p ≡ p) (sym h) (on_event-crashed e p))
      ∙ run-crashed es p h

  run-closed : (es : List Event) (p : Publisher) → p.phase ≡ closed → run array_push n es p ≡ p
  unfolding run
  run-closed [] p h = refl
  run-closed (e ∷ es) p h =
      ap (run array_push n es)
        (subst (λ f. on_event array_push n f e p ≡ p) (sym h) (on_event-closed e p))
      ∙ run-closed es p h

  run-append :
      (es fs : List Event) (p : Publisher)
      → run array_push n (es ++ fs) p ≡ run array_push n fs (run array_push n es p)
  unfolding run
  run-append [] fs p = refl
  run-append (e ∷ es) fs p = run-append es fs (on_event array_push n p.phase e p)

  -- The first of the snapshots that were taken, before those of `Reached`.
  Reached-cons :
      {s : ContributorSnapshot} {ss : List ContributorSnapshot} {p q : Publisher} {m : Summary}
      → to_proto array_push n (update_snapshot s p.combined) ≡ ok m
      → Reached ss
          (publish (fine (some m)) (record p { combined = update_snapshot s p.combined }))
          q
      → Reached (s ∷ ss) p q
  Reached-cons {s} {ss} {p} {q} {m} e r = record {
    combines = r.combines;
    notified = omega (arith, r.notified);
    current = inr (elim r.current [
      | inl (none_left, same) ↦ (
        m,
        same,
        ap (to_proto array_push n)
              (r.combines ∙ ap (λ ss. updates ss (update_snapshot s p.combined)) none_left)
            ∙ e,
      )
      | inr later ↦ later
    ]);
  }

  -- The events were all snapshots, and the publisher has reached what they lead to.
  abbrev pub HasTaken : List Event → Publisher → Publisher → Type 0
  HasTaken es p q = (ss : List ContributorSnapshot) × (es ≡ map snapshot ss) × Reached ss p q

  run-ne-running :
      (es : List Event) (q : Publisher)
      → (q.phase ≡ closed) ⊎ (q.phase ≡ crashed)
      → ¬ ((run array_push n es q).phase ≡ running)
  run-ne-running es q (inl c) r = cc (ap (λ (p : Publisher). p.phase) (run-closed es q c))
  run-ne-running es q (inr c) r = cc (ap (λ (p : Publisher). p.phase) (run-crashed es q c))

  on_summary-HasTaken :
      (es : List Event) (s : ContributorSnapshot) (p : Publisher)
      → ((p' : Publisher)
          → p'.phase ≡ running
          → (run array_push n es p').phase ≡ running
          → HasTaken es p' (run array_push n es p'))
      → p.phase ≡ running
      → (o : Outcome Summary) → to_proto array_push n (update_snapshot s p.combined) ≡ o
      → let q =
          run array_push n es
            (on_summary o (record p { combined = update_snapshot s p.combined })) in
        q.phase ≡ running → HasTaken (snapshot s ∷ es) p q
  on_summary-HasTaken es s p rest h (ok m) e r =
      let (ss, q, t) =
        rest (publish (fine (some m)) (record p { combined = update_snapshot s p.combined })) h r in
      (s ∷ ss, ap (λ es. snapshot s ∷ es) q, Reached-cons e t)
  on_summary-HasTaken es s p rest h (err m) e r = absurd (run-ne-running es _ (inr refl) r)
  on_summary-HasTaken es s p rest h panic e r = absurd (run-ne-running es _ (inr refl) r)

  -- A publisher that is still in its loop has taken nothing but snapshots, and it combines all of
  -- them, has notified the watchers once for each, and stores the summary of the whole.
  pub run-HasTaken :
      (es : List Event) (p : Publisher)
      → p.phase ≡ running
      → (run array_push n es p).phase ≡ running
      → HasTaken es p (run array_push n es p)
  unfolding run on_event
  run-HasTaken [] p h k =
      ([], refl, record { combines = refl; notified = omega arith; current = inl (refl, refl) })
  run-HasTaken (close ∷ es) p h k = absurd (
      run-ne-running es _ (inl refl)
        (subst (λ f. (run array_push n es (on_event array_push n f close p)).phase ≡ running) h k))
  run-HasTaken (snapshot s ∷ es) p h k =
      subst
        (λ f.
          HasTaken (snapshot s ∷ es) p
            (run array_push n es (on_event array_push n f (snapshot s) p)))
        (sym h)
        (on_summary-HasTaken es s p (run-HasTaken es) h
          (to_proto array_push n (update_snapshot s p.combined)) refl
          (subst
            (λ f. (run array_push n es (on_event array_push n f (snapshot s) p)).phase ≡ running) h
            k))

  -- A publisher that is closed in its loop stores the error of a shutdown and notifies the watchers
  -- once more; no later event changes anything.
  pub run-close :
      (es rest : List Event) (p : Publisher)
      → (run array_push n es p).phase ≡ running
      → run array_push n (es ++ close ∷ rest) p
        ≡ record (publish (failed shutdown) (run array_push n es p)) { phase = closed }
  unfolding run on_event
  run-close es rest p h = run-append es (close ∷ rest) p ∙ stop rest (run array_push n es p) h
    where
      stop :
          (rest : List Event) (q : Publisher)
          → q.phase ≡ running
          → run array_push n (close ∷ rest) q
            ≡ record (publish (failed shutdown) q) { phase = closed }
      stop rest q h =
          ap (run array_push n rest) (ap (λ f. on_event array_push n f close q) h)
          ∙ run-closed rest (record (publish (failed shutdown) q) { phase = closed }) refl
