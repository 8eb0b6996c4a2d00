-- ===== src/Server/Signals.antt =====
-- Who hears the signal of a shutdown.
use aggbook.Prelude.{refl, inl, inr, ◌≡◌, ◌≢◌, ◌⊎◌, true, false, List, [], ◌∷◌, All, arith}
use aggbook.Server.Calls.{call-is_shutting_down}
use aggbook.Server.{
  Phase, ended, failed, listening, notified, lagged, taken, preparing, managing, serving, stopping,
  Process, Event, advances, interrupts, manager_wakes, server_wakes, server_returns, server_fails,
  calls, started, step, run,
}

-- `run` serves or has left, and the server has a signal to take unless it has left its loop.
pub record IsWarned (p : Process) : Type 0 where
  pub past : (p.phase ≢ preparing) × (p.phase ≢ managing)
  pub holds :
      (p.server_rx ≡ notified)
      ⊎ (p.server_rx ≡ lagged)
      ⊎ ((p.server_rx ≡ taken) × (p.phase ≢ serving))

step-IsWarned : (e : Event) (p : Process) → IsWarned p → IsWarned (step e p)
unfolding step
step-IsWarned advances p w = ground arith
step-IsWarned interrupts p w = ground arith
step-IsWarned manager_wakes p w = ground arith
step-IsWarned server_wakes p w = ground arith
step-IsWarned server_returns p w = ground arith
step-IsWarned (server_fails m) p w = ground arith
step-IsWarned (calls e) p w = ground arith

-- The manager's watcher has one signal to take, or has set the manager's flag, and no other signal of
-- Ctrl-C comes.
record IsTold (p : Process) : Type 0 where
  sent : p.sent ≡ true
  told : (p.manager_rx ≡ notified) ⊎ ((p.manager_rx ≡ taken) × (p.manager.is_shutting_down ≡ true))

-- The server does not fail by this event.
abbrev pub GoesOn : Event → Type 0
GoesOn (server_fails m) = ⊥
GoesOn _ = Unit

step-IsTold : (e : Event) (p : Process) → GoesOn e → IsWarned p → IsTold p → IsTold (step e p)
unfolding step
step-IsTold advances p g w t = ground arith
step-IsTold interrupts p g w t = ground arith
step-IsTold manager_wakes p g w t = ground arith
step-IsTold server_wakes p g w t = ground arith
step-IsTold server_returns p g w t = ground arith
step-IsTold (server_fails m) p g w t = absurd g
step-IsTold (calls e) p g w t = ground (arith, call-is_shutting_down e p.manager)

run-IsWarned :
    (es : List Event) (p : Process)
    → All GoesOn es
    → IsWarned p
    → IsTold p
    → IsWarned (run es p) × IsTold (run es p)
unfolding run
run-IsWarned [] p _ w t = (w, t)
run-IsWarned (e ∷ es) p (g, gs) w t =
    run-IsWarned es (step e p) gs (step-IsWarned e p w) (step-IsTold e p g w t)

woken_server :
    (p : Process) → IsWarned p → (p.phase ≢ serving) ⊎ ((step server_wakes p).phase ≡ stopping)
unfolding step
woken_server p w = elim (serving_or p.phase) [ inl h ↦ inr (ground (arith, h)) | inr h ↦ inl h ]
  where
    serving_or : (f : Phase) → (f ≡ serving) ⊎ (f ≢ serving)
    serving_or serving = inl refl
    serving_or preparing = inr (λ e. cc e)
    serving_or managing = inr (λ e. cc e)
    serving_or stopping = inr (λ e. cc e)
    serving_or ended = inr (λ e. cc e)
    serving_or (failed m) = inr (λ e. cc e)

woken_manager : (p : Process) → IsTold p → (step manager_wakes p).manager.is_shutting_down ≡ true
unfolding step
woken_manager p t = ground arith

-- The first signal that comes while the server serves, with both receivers waiting, is lost in no
-- order of what happens then, unless the server fails: if the server still serves, its next turn
-- stops it, and after the next turn of the manager's watcher the manager shuts down.
pub run-interrupts :
    (es : List Event) (p : Process)
    → p.phase ≡ serving
    → p.sent ≡ false
    → p.manager_rx ≡ listening
    → p.server_rx ≡ listening
    → All GoesOn es
    → let q = run (interrupts ∷ es) p in
      ((q.phase ≢ serving) ⊎ ((step server_wakes q).phase ≡ stopping))
      × ((step manager_wakes q).manager.is_shutting_down ≡ true)
unfolding run
run-interrupts es p f s m r g =
    let p' = step interrupts p in
    let (w, t) = run-IsWarned es p' g (heard p f s r) (told p s m) in
    (woken_server (run es p') w, woken_manager (run es p') t)
  where
    heard :
        (p : Process)
        → p.phase ≡ serving
        → p.sent ≡ false
        → p.server_rx ≡ listening
        → IsWarned (step interrupts p)
    heard p f s r = ground arith

    told : (p : Process) → p.sent ≡ false → p.manager_rx ≡ listening → IsTold (step interrupts p)
    told p s m = ground arith

-- The server's receiver waits although the only signal was sent.
record IsDeaf (p : Process) : Type 0 where
  serves : p.phase ≡ serving
  sent : p.sent ≡ true
  waits : p.server_rx ≡ listening

step-IsDeaf : (e : Event) (p : Process) → GoesOn e → IsDeaf p → IsDeaf (step e p)
unfolding step
step-IsDeaf advances p g w = ground arith
step-IsDeaf interrupts p g w = ground arith
step-IsDeaf manager_wakes p g w = ground arith
step-IsDeaf server_wakes p g w = ground arith
step-IsDeaf server_returns p g w = ground arith
step-IsDeaf (server_fails m) p g w = absurd g
step-IsDeaf (calls e) p g w = ground arith

run-IsDeaf : (es : List Event) (p : Process) → All GoesOn es → IsDeaf p → IsDeaf (run es p)
unfolding run
run-IsDeaf [] p _ w = w
run-IsDeaf (e ∷ es) p (g, gs) w = run-IsDeaf es (step e p) gs (step-IsDeaf e p g w)

-- A signal that was sent before `run` has made its receiver never reaches the server: however often
-- Ctrl-C is pressed and whatever else happens, the server serves on until it fails.
pub run-interrupted_early :
    (before after : List Event)
    → let p = run before started in
      p.phase ≡ managing
      → p.sent ≡ true
      → All GoesOn after
      → (run (advances ∷ after) p).phase ≡ serving
unfolding run
run-interrupted_early before after h s g =
    (run-IsDeaf after (step advances (run before started)) g (made (run before started) h s)).serves
  where
    made : (p : Process) → p.phase ≡ managing → p.sent ≡ true → IsDeaf (step advances p)
    made p h s = ground arith
