-- ===== src/Server/Soundness.antt =====
-- The manager of a server, and when it shuts down.
use aggbook.Prelude.{◌≡◌, ◌⊎◌, inl, refl, sym, subst, true, false, String, List, [], ◌∷◌, arith}
use aggbook.Factory.{new_factory_map}
use aggbook.Instrument.{instruments}
use aggbook.Manager.Lifecycle as Lifecycle
use aggbook.Manager.Lifecycle.{step-IsWellFormed, run-IsWellFormed}
use aggbook.Manager.Table.{IsWellFormed}
use aggbook.Server.{
  Receiver, absent, listening, notified, lagged, taken, failed, Process, Event, advances,
  interrupts, manager_wakes, server_wakes, server_returns, server_fails, calls, started, depth,
  wake_manager, step, run,
}
use aggbook.Server.Calls.{call-is_shutting_down, call-IsWellFormed}

-- A signal was sent: by the task that waits for Ctrl-C, or after a failure of the server.
abbrev pub WasTold : Process → Type 0
WasTold p = (p.sent ≡ true) ⊎ (p.phase ≡ failed "service failure")

-- What the manager's watcher has got was sent, and only then is the flag set.
record IsQuiet (p : Process) : Type 0 where
  waiting : (p.manager_rx ≡ absent) ⊎ (p.manager_rx ≡ listening) ⊎ WasTold p
  unset : (p.manager.is_shutting_down ≡ false) ⊎ WasTold p

step-IsQuiet : (e : Event) (p : Process) → IsQuiet p → IsQuiet (step e p)
unfolding step
step-IsQuiet advances p w = ground arith
step-IsQuiet interrupts p w = ground arith
step-IsQuiet manager_wakes p w = ground arith
step-IsQuiet server_wakes p w = ground arith
step-IsQuiet server_returns p w = ground arith
step-IsQuiet (server_fails m) p w = ground arith
step-IsQuiet (calls e) p w = ground (arith, call-is_shutting_down e p.manager)

-- The watcher sets the flag of a manager and changes nothing else.
wake_manager-IsWellFormed :
    (r : Receiver) (p : Process) → IsWellFormed p.manager → IsWellFormed (wake_manager r p).manager
wake_manager-IsWellFormed notified p w =
    step-IsWellFormed instruments (new_factory_map depth) Lifecycle.begins_shutdown p.manager w
wake_manager-IsWellFormed absent p w = w
wake_manager-IsWellFormed listening p w = w
wake_manager-IsWellFormed lagged p w = w
wake_manager-IsWellFormed taken p w = w

-- The other steps leave the manager as it is.
others-manager :
    (p : Process)
    → ((step advances p).manager ≡ p.manager)
      × ((step interrupts p).manager ≡ p.manager)
      × ((step server_wakes p).manager ≡ p.manager)
      × ((step server_returns p).manager ≡ p.manager)
      × ((m : String) → (step (server_fails m) p).manager ≡ p.manager)
unfolding step
others-manager p = (ground arith, ground arith, ground arith, ground arith, λ m. ground arith)

step-IsWellFormed_manager :
    (e : Event) (p : Process) → IsWellFormed p.manager → IsWellFormed (step e p).manager
unfolding step
step-IsWellFormed_manager advances p w = subst IsWellFormed (sym (others-manager p).0) w
step-IsWellFormed_manager interrupts p w = subst IsWellFormed (sym (others-manager p).1) w
step-IsWellFormed_manager manager_wakes p w = wake_manager-IsWellFormed p.manager_rx p w
step-IsWellFormed_manager server_wakes p w = subst IsWellFormed (sym (others-manager p).2) w
step-IsWellFormed_manager server_returns p w = subst IsWellFormed (sym (others-manager p).3) w
step-IsWellFormed_manager (server_fails m) p w = subst IsWellFormed (sym ((others-manager p).4 m)) w
step-IsWellFormed_manager (calls e) p w = call-IsWellFormed e p.manager w

run-keeps :
    (es : List Event) (p : Process)
    → IsWellFormed p.manager
    → IsQuiet p
    → IsWellFormed (run es p).manager × IsQuiet (run es p)
unfolding run
run-keeps [] p w q = (w, q)
run-keeps (e ∷ es) p w q =
    run-keeps es (step e p) (step-IsWellFormed_manager e p w) (step-IsQuiet e p q)

-- Whatever happens to a server from its start, no feed is lost: the table of its manager is well
-- formed. And the manager shuts down only after Ctrl-C or a failure of the server.
pub run-WasTold :
    (es : List Event)
    → IsWellFormed (run es started).manager
      × (((run es started).manager.is_shutting_down ≡ false) ⊎ WasTold (run es started))
run-WasTold es =
    let (w, q) =
      run-keeps es started (run-IsWellFormed instruments (new_factory_map depth) [])
        (record { waiting = inl refl; unset = inl refl }) in
    (w, q.unset)
