-- ===== src/Relay/History.antt =====
-- What has been passed on, after any actions of the task of a feed and of its relay.
use mathlib.Core.Option.{some-injective}
use aggbook.Prelude.{
  ℕ, ◌+◌, ◌≤◌, ◌≡◌, refl, sym, ap, subst, ◌∙◌, true, false, Bool, String, Option, some, none, List,
  [], ◌∷◌, head?, Outcome, ok, err, panic, ok-injective, ◌==◌, if◌then◌else◌, arith,
}
use aggbook.Book.{ContributorSnapshot}
use aggbook.Feed.Task as Task
use aggbook.Feed.Task.History.{Published, same, failed, read, on_event-Published, step-closed}
use aggbook.Client.{taken, shut_down, dropped}
use aggbook.Relay.{
  Phase, reading, sending, waiting, ended, Relay, Action, reads, sends, changes, on_read, act,
  System, first_system, Event, of_task, of_relay, step, run,
}

-- What the relay knows of the feed, by its phase: no version is ahead of the feed, and unless there
-- is a newer version, the snapshot that it sends, or has sent last, is the latest.
abbrev IsAbreast : Phase → Task.Feed → Relay → Type 0
IsAbreast reading f r = r.seen ≤ f.watch
IsAbreast (sending s) f r = (r.seen ≤ f.watch) × (r.seen ≡ f.watch → f.latest ≡ some (ok s))
IsAbreast waiting f r =
    (r.seen ≤ f.watch)
    × ((s : ContributorSnapshot)
        → r.seen ≡ f.watch
        → f.latest ≡ some (ok s)
        → head? r.forwarded ≡ some s)
IsAbreast ended f r = r.seen ≤ f.watch

-- A newer version.
IsAbreast-later :
    (p : Phase) (f f' : Task.Feed) (r : Relay)
    → f'.watch ≡ f.watch + 1
    → IsAbreast p f r
    → IsAbreast p f' r
IsAbreast-later reading f f' r h k = omega (arith, h, k)
IsAbreast-later (sending s) f f' r h (k, _) =
    (omega (arith, h, k), λ e. absurd (omega (arith, h, k, e)))
IsAbreast-later waiting f f' r h (k, _) =
    (omega (arith, h, k), λ s e _. absurd (omega (arith, h, k, e)))
IsAbreast-later ended f f' r h k = omega (arith, h, k)

on_read-IsAbreast :
    (o : Option (Outcome ContributorSnapshot)) (f : Task.Feed) (r : Relay)
    → f.latest ≡ o
    → r.seen ≤ f.watch
    → IsAbreast (on_read o r).phase f (on_read o r)
on_read-IsAbreast (some (ok s)) f r h k = (k, λ _. h)
on_read-IsAbreast none f r h k = (k, λ s _ e. cc (sym h ∙ e))
on_read-IsAbreast (some (err m)) f r h k = (k, λ s _ e. cc (some-injective _ _ (sym h ∙ e)))
on_read-IsAbreast (some panic) f r h k = (k, λ s _ e. cc (some-injective _ _ (sym h ∙ e)))

on_change-IsAbreast :
    (b : Bool) (f : Task.Feed) (r : Relay)
    → IsAbreast r.phase f r
    → let r' : Relay = if b then r else record r { phase = reading; seen = f.watch } in
      IsAbreast r'.phase f r'
on_change-IsAbreast true f r h = h
on_change-IsAbreast false f r h = omega arith

act-IsAbreast :
    (p : Phase) (a : Action) (f : Task.Feed) (r : Relay)
    → r.phase ≡ p
    → IsAbreast p f r
    → IsAbreast (act f p a r).phase f (act f p a r)
unfolding act
act-IsAbreast reading reads f r h k = on_read-IsAbreast f.latest f r refl k
act-IsAbreast (sending s) (sends taken) f r h (k, l) =
    (k, λ s' e q. ap some (ok-injective (some-injective _ _ (sym (l e) ∙ q))))
act-IsAbreast (sending s) (sends shut_down) f r h (k, l) = k
act-IsAbreast (sending s) (sends dropped) f r h (k, l) = k
act-IsAbreast waiting changes f r h k =
    on_change-IsAbreast (r.seen == f.watch) f r (subst (λ p. IsAbreast p f r) (sym h) k)
act-IsAbreast p _ f r h k = subst (λ p. IsAbreast p f r) (sym h) k

act-waiting : (a : Action) (f : Task.Feed) (r : Relay) → r.seen ≡ f.watch → act f waiting a r ≡ r
unfolding act
act-waiting changes f r h =
    ap (λ b. if b then r else record r { phase = reading; seen = f.watch })
      (seen_it r.seen f.watch h)
  where
    seen_it : (a b : ℕ) → a ≡ b → (a == b) ≡ true
    seen_it a b h = ground (arith, h)
act-waiting reads f r h = refl
act-waiting (sends x) f r h = refl

module _ (parse : String → ℕ → Outcome (Option ContributorSnapshot)) where
  published-IsAbreast :
      (t t' : Task.Task) (e : Task.Event) (r : Relay)
      → Published parse t t' e
      → IsAbreast r.phase t.feed r
      → IsAbreast r.phase t'.feed r
  published-IsAbreast t t' e r (same q) k = subst (λ f. IsAbreast r.phase f r) (sym q) k
  published-IsAbreast t t' e r (failed m _ q) k =
      IsAbreast-later r.phase t.feed t'.feed r (ap (λ (f : Task.Feed). f.watch) q) k
  published-IsAbreast t t' e r (read s _ q) k =
      IsAbreast-later r.phase t.feed t'.feed r (ap (λ (f : Task.Feed). f.watch) q) k

  run-IsAbreast :
      (es : List Event) (y : System)
      → IsAbreast y.relay.phase y.task.feed y.relay
      → let y' = run parse es y in IsAbreast y'.relay.phase y'.task.feed y'.relay
  unfolding run step Task.step
  run-IsAbreast [] y k = k
  run-IsAbreast (of_task e ∷ es) y k =
      run-IsAbreast es (record y { task = Task.step parse e y.task })
        (published-IsAbreast y.task (Task.step parse e y.task) e y.relay
          (on_event-Published parse y.task.phase e y.task) k)
  run-IsAbreast (of_relay a ∷ es) y k =
      run-IsAbreast es (record y { relay = act y.task.feed y.relay.phase a y.relay })
        (act-IsAbreast y.relay.phase a y.task.feed y.relay refl k)

  -- Whenever the relay waits, with no version that it has not seen, and the feed's latest value is a
  -- snapshot, that snapshot is the last one that was passed on. Of several snapshots that the feed
  -- publishes before the relay reads, the relay may pass on only the last.
  pub run-forwarded :
      (es : List Event) (s : ContributorSnapshot)
      → let y = run parse es first_system in
        y.relay.phase ≡ waiting
        → y.relay.seen ≡ y.task.feed.watch
        → y.task.feed.latest ≡ some (ok s)
        → head? y.relay.forwarded ≡ some s
  run-forwarded es s h k e =
      let y = run parse es first_system in
      (subst (λ p. IsAbreast p y.task.feed y.relay) h
          (run-IsAbreast es first_system (omega arith))).1
        s k e

  -- When the task of the feed has ended by the shutdown while the relay waits, with no version that
  -- it has not seen, nothing that happens ends the relay.
  pub run-waiting :
      (es : List Event) (y : System)
      → y.task.phase ≡ Task.closed
      → y.relay.phase ≡ waiting
      → y.relay.seen ≡ y.task.feed.watch
      → run parse es y ≡ y
  unfolding run step
  run-waiting [] y h k e = refl
  run-waiting (of_task x ∷ es) y h k e =
      ap (λ (t : Task.Task). run parse es (record { task = t; relay = y.relay }))
        (step-closed parse x y.task h)
      ∙ run-waiting es y h k e
  run-waiting (of_relay a ∷ es) y h k e =
      ap (λ (r : Relay). run parse es (record { task = y.task; relay = r }))
        (ap (λ p. act y.task.feed p a y.relay) k ∙ act-waiting a y.task.feed y.relay e)
      ∙ run-waiting es y h k e
