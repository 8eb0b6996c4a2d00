-- ===== src/Feed/Task/History.antt =====
-- What any history of events does to the task of a feed and to the value that it publishes.
use aggbook.Prelude.{
  ℕ, ◌≡◌, ◌≢◌, refl, sym, ap, subst, ◌∙◌, ◌⊎◌, inl, inr, String, Option, some, none, List, [], ◌∷◌,
  Outcome, ok, err, panic,
}
use aggbook.Book.{ContributorSnapshot}
use aggbook.Feed.Task.{
  Phase, connecting, running, backoff, closed, crashed, Task, Event, connected, connect_failed,
  message, read_error, disconnected, ping_failed, backoff_over, shutdown, publish, fail, on_parsed,
  on_event, step, run,
}

-- Some event of the history is such.
abbrev pub Seen : (Event → Type 0) → List Event → Type 0
Seen P [] = ⊥
Seen P (e ∷ es) = P e ⊎ Seen P es

module _ (parse : String → ℕ → Outcome (Option ContributorSnapshot)) where
  -- A message of the history that the parser turned into the snapshot.
  abbrev pub IsMessageOf : ContributorSnapshot → Event → Type 0
  IsMessageOf s e =
      (txt : String) × (now : ℕ) × (e ≡ message txt now) × (parse txt now ≡ ok (some s))

  -- What one event may do to the published value.
  pub data Published (t t' : Task) (e : Event) : Type 0 where
    same : t'.feed ≡ t.feed → Published t t' e
    failed : (m : String) → t'.phase ≡ backoff → t'.feed ≡ publish (err m) t.feed → Published t t' e
    read :
        (s : ContributorSnapshot)
        → IsMessageOf s e
        → t'.feed ≡ publish (ok s) t.feed
        → Published t t' e

  on_parsed-Published :
      (t : Task) (txt : String) (now : ℕ) (o : Outcome (Option ContributorSnapshot))
      → parse txt now ≡ o
      → Published t (on_parsed o t) (message txt now)
  on_parsed-Published t txt now (ok (some s)) h = read s (txt, now, refl, h) refl
  on_parsed-Published t txt now (ok none) h = same refl
  on_parsed-Published t txt now (err e) h = failed e refl refl
  on_parsed-Published t txt now panic h = same refl

  pub on_event-Published : (p : Phase) (e : Event) (t : Task) → Published t (on_event parse p e t) e
  unfolding on_event
  on_event-Published connecting (connect_failed e) t = failed e refl refl
  on_event-Published running (message txt now) t =
      on_parsed-Published t txt now (parse txt now) refl
  on_event-Published running (read_error e) t = failed _ refl refl
  on_event-Published running disconnected t = failed _ refl refl
  on_event-Published running (ping_failed e) t = failed _ refl refl
  on_event-Published backoff backoff_over t = same refl
  on_event-Published backoff shutdown t = same refl
  on_event-Published _ _ t = same refl

  on_parsed-closed :
      (o : Outcome (Option ContributorSnapshot)) (t : Task)
      → (on_parsed o t).phase ≡ closed
      → t.phase ≡ closed
  on_parsed-closed (ok (some s)) t h = h
  on_parsed-closed (ok none) t h = h
  on_parsed-closed (err e) t h = cc
  on_parsed-closed panic t h = cc

  -- The task ends in a graceful way only by a shutdown.
  on_event-closed :
      (p : Phase) (e : Event) (t : Task)
      → (on_event parse p e t).phase ≡ closed
      → (t.phase ≡ closed) ⊎ (e ≡ shutdown)
  unfolding on_event
  on_event-closed connecting connected t k = absurd (cc k)
  on_event-closed connecting (connect_failed e) t k = absurd (cc k)
  on_event-closed running (message txt now) t k = inl (on_parsed-closed (parse txt now) t k)
  on_event-closed running (read_error e) t k = absurd (cc k)
  on_event-closed running disconnected t k = absurd (cc k)
  on_event-closed running (ping_failed e) t k = absurd (cc k)
  on_event-closed running shutdown t k = inr refl
  on_event-closed backoff backoff_over t k = absurd (cc k)
  on_event-closed backoff shutdown t k = inr refl
  on_event-closed _ _ t k = inl k

  -- A task that has ended in a graceful way after some events, and had not before them, has taken the
  -- signal of a shutdown, which is one of these events.
  pub run-closed :
      (es : List Event) (t : Task)
      → t.phase ≢ closed
      → (run parse es t).phase ≡ closed
      → Seen (λ e. e ≡ shutdown) es
  unfolding run step
  run-closed [] t h k = h k
  run-closed (e ∷ es) t h k = elim (closed_or (on_event parse t.phase e t).phase) [
    | inl c ↦ elim (on_event-closed t.phase e t c) [ inl c' ↦ absurd (h c') | inr s ↦ inl s ]
    | inr o ↦ inr (run-closed es (on_event parse t.phase e t) o k)
  ]
    where
      closed_or : (p : Phase) → (p ≡ closed) ⊎ (p ≢ closed)
      closed_or closed = inl refl
      closed_or connecting = inr (λ e. cc)
      closed_or running = inr (λ e. cc)
      closed_or backoff = inr (λ e. cc)
      closed_or crashed = inr (λ e. cc)

  on_parsed-backoff :
      (o : Outcome (Option ContributorSnapshot)) (t : Task)
      → t.phase ≢ backoff
      → (on_parsed o t).phase ≡ backoff
      → (m : String) × (on_parsed o t ≡ fail m t)
  on_parsed-backoff (ok (some s)) t h k = absurd (h k)
  on_parsed-backoff (ok none) t h k = absurd (h k)
  on_parsed-backoff (err e) t h k = (e, refl)
  on_parsed-backoff panic t h k = absurd (cc k)

  -- The task goes to sleep only by `fail`.
  on_event-backoff :
      (p : Phase) (e : Event) (t : Task)
      → t.phase ≢ backoff
      → (on_event parse p e t).phase ≡ backoff
      → (m : String) × (on_event parse p e t ≡ fail m t)
  unfolding on_event
  on_event-backoff connecting connected t h k = absurd (cc k)
  on_event-backoff connecting (connect_failed e) t h k = (e, refl)
  on_event-backoff running (message txt now) t h k = on_parsed-backoff (parse txt now) t h k
  on_event-backoff running (read_error e) t h k = (_, refl)
  on_event-backoff running disconnected t h k = (_, refl)
  on_event-backoff running (ping_failed e) t h k = (_, refl)
  on_event-backoff running shutdown t h k = absurd (cc k)
  on_event-backoff backoff backoff_over t h k = absurd (cc k)
  on_event-backoff backoff shutdown t h k = absurd (cc k)
  on_event-backoff _ _ t h k = absurd (h k)

  -- A task that goes to sleep has published the error `m` with one notification; when the pause is
  -- over and the next connection is made it reads messages again, with that error still published.
  step-recovers :
      (e : Event) (t : Task)
      → t.phase ≢ backoff
      → (step parse e t).phase ≡ backoff
      → (m : String) × (run parse (e ∷ backoff_over ∷ connected ∷ []) t
          ≡ record { phase = running; feed = publish (err m) t.feed })
  unfolding run step on_event
  step-recovers e t h k = (r.0, ap (λ t'. run parse (backoff_over ∷ connected ∷ []) t') r.1)
    where
      r : (m : String) × (on_event parse t.phase e t ≡ fail m t)
      r = on_event-backoff t.phase e t h k

  -- A task that has ended takes no event.
  pub step-closed : (e : Event) (t : Task) → t.phase ≡ closed → step parse e t ≡ t
  unfolding step on_event
  step-closed e t h = subst (λ p. on_event parse p e t ≡ t) (sym h) (still e)
    where
      still : (e : Event) → on_event parse closed e t ≡ t
      still connected = refl
      still _ = refl

  on_event-crashed : (e : Event) (t : Task) → on_event parse crashed e t ≡ t
  unfolding on_event
  on_event-crashed connected t = refl
  on_event-crashed _ t = refl

  -- After a panic of the parser no event changes anything: the feed stays as it was, without an
  -- error and without a new connection.
  pub run-crashed : (es : List Event) (t : Task) → t.phase ≡ crashed → run parse es t ≡ t
  unfolding run step
  run-crashed [] t h = refl
  run-crashed (e ∷ es) t h = ap (run parse es) same_task ∙ run-crashed es t h
    where
      same_task : on_event parse t.phase e t ≡ t
      same_task = subst (λ p. on_event parse p e t ≡ t) (sym h) (on_event-crashed e t)
