-- ===== src/Relay/Feeding.antt =====
-- Where the snapshots of a source come from: those that its task publishes and its relay sends.
use aggbook.Prelude.{
  ℕ, ◌≡◌, ap, subst, sym, ◌∙◌, ◌+◌, ◌≤◌, arith, true, false, Bool, String, Option, some, none, List,
  [], ◌∷◌, Outcome, ok, err, panic, All, ◌==◌, if◌then◌else◌,
}
use aggbook.Book.{ContributorSnapshot}
use aggbook.Feed.Task as Task
use aggbook.Feed.Task.History.{Published, same, failed, read, on_event-Published}
use aggbook.Client.{taken}
use aggbook.Relay.{
  pending, Phase, reading, sending, waiting, Relay, Action, reads, sends, changes, on_read, act,
  System, Event, of_task, of_relay, step, run,
}

-- The snapshot that a feed has published.
abbrev pub published : Option (Outcome ContributorSnapshot) → List ContributorSnapshot
published (some (ok s)) = s ∷ []
published _ = []

abbrev pub IsFed : (ContributorSnapshot → Type 0) → System → Type 0
IsFed P y = All P (published y.task.feed.latest) × All P (pending y.relay.phase)

module _ (P : ContributorSnapshot → Type 0) where
  on_read-pending :
      (o : Option (Outcome ContributorSnapshot)) (r : Relay)
      → All P (published o)
      → All P (pending (on_read o r).phase)
  on_read-pending (some (ok s)) r h = h
  on_read-pending (some (err m)) r h = tt
  on_read-pending (some panic) r h = tt
  on_read-pending none r h = tt

  on_change-pending :
      (b : Bool) (watch : ℕ) (r : Relay)
      → All P (pending r.phase)
      → All P (pending (if b then r else record r { phase = reading; seen = watch }).phase)
  on_change-pending true watch r h = h
  on_change-pending false watch r h = tt

  act-pending :
      (f : Task.Feed) (p : Phase) (a : Action) (r : Relay)
      → All P (published f.latest)
      → All P (pending r.phase)
      → All P (pending (act f p a r).phase)
  unfolding act
  act-pending f reading reads r h k = on_read-pending f.latest r h
  act-pending f (sending s) (sends taken) r h k = tt
  act-pending f (sending s) (sends _) r h k = tt
  act-pending f waiting changes r h k = on_change-pending (r.seen == f.watch) f.watch r k
  act-pending f _ _ r h k = k

  module _ (parse : String → ℕ → Outcome (Option ContributorSnapshot)) where
    published-on_event :
        (t t' : Task.Task) (e : Task.Event)
        → Published parse t t' e
        → ((txt : String) (now : ℕ) (s : ContributorSnapshot)
            → e ≡ Task.message txt now
            → parse txt now ≡ ok (some s)
            → P s)
        → All P (published t.feed.latest)
        → All P (published t'.feed.latest)
    published-on_event t t' e (same q) f h =
        subst (λ (x : Task.Feed). All P (published x.latest)) (sym q) h
    published-on_event t t' e (failed m _ q) f h =
        subst (λ (x : Task.Feed). All P (published x.latest)) (sym q) tt
    published-on_event t t' e (read s (txt, now, q, p) q') f h =
        subst (λ (x : Task.Feed). All P (published x.latest)) (sym q') (f txt now s q p, tt)

    -- A step needs no more than that what its message is parsed into is such a snapshot.
    pub step-IsFed :
        (e : Event) (y : System)
        → ((txt : String) (now : ℕ) (s : ContributorSnapshot)
            → e ≡ of_task (Task.message txt now)
            → parse txt now ≡ ok (some s)
            → P s)
        → IsFed P y
        → IsFed P (step parse e y)
    unfolding step Task.step
    step-IsFed (of_task e) y f (h, k) = (
      published-on_event y.task (Task.step parse e y.task) e
          (on_event-Published parse y.task.phase e y.task)
          (λ txt now s q p. f txt now s (ap of_task q) p) h,
      k,
    )
    step-IsFed (of_relay a) y f (h, k) = (h, act-pending y.task.feed y.relay.phase a y.relay h k)

later : (a b : ℕ) → a ≤ b → (a == b + 1) ≡ false
later a b h = ground (arith, h)

-- A relay that waits takes up the snapshot of the next message.
pub run-message :
    (parse : String → ℕ → Outcome (Option ContributorSnapshot)) (txt : String) (now seen : ℕ)
    (s : ContributorSnapshot) (f : Task.Feed) (forwarded : List ContributorSnapshot)
    → seen ≤ f.watch
    → parse txt now ≡ ok (some s)
    → run parse (of_task (Task.message txt now) ∷ of_relay changes ∷ of_relay reads ∷ []) (record {
      task = record { phase = Task.running; feed = f };
      relay = record { phase = waiting; seen = seen; forwarded = forwarded };
    })
      ≡ record {
        task = record { phase = Task.running; feed = Task.publish (ok s) f };
        relay = record { phase = sending s; seen = f.watch + 1; forwarded = forwarded };
      }
unfolding run step act Task.step
run-message parse txt now seen s f forwarded h e =
    ap
      (λ o. run parse (of_relay changes ∷ of_relay reads ∷ []) (record {
        task = Task.on_parsed o (record { phase = Task.running; feed = f });
        relay = record { phase = waiting; seen = seen; forwarded = forwarded };
      }))
      e
    ∙ ap
        (λ b.
          let r : Relay = record { phase = waiting; seen = seen; forwarded = forwarded } in
          run parse (of_relay reads ∷ []) (record {
            task = record { phase = Task.running; feed = Task.publish (ok s) f };
            relay = if b then r else record r { phase = reading; seen = f.watch + 1 };
          }))
        (later seen f.watch h)
