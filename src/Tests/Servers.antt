-- ===== src/Tests/Servers.antt =====
-- Tests of the process of the server.
use aggbook.Prelude.{◌⊎◌, ◌≢◌, false, ◌≡◌, refl, true, none, List, [], ◌∷◌}
use aggbook.Address.{parse_socket_addr, read_socket_addr_v4, read_ipv4_addr}
use aggbook.Decimal.{decimal}
use aggbook.Config.{try_from}
use aggbook.Manager.Lifecycle as Lifecycle
use aggbook.Manager.Table.{IsWellFormed}
use aggbook.Server.{
  Process, Event, advances, interrupts, manager_wakes, server_wakes, server_returns, calls, serving,
  stopping, ended, started, runs, main, step, run,
}
use aggbook.Server.Signals.{run-interrupts, run-interrupted_early}
use aggbook.Server.Soundness.{WasTold, run-WasTold}

-- A server starts, a client comes, and Ctrl-C ends it.
abbrev served : List Event
served =
    advances
    ∷ advances
    ∷ calls (Lifecycle.opens "ETH-BTC")
    ∷ interrupts
    ∷ server_wakes
    ∷ manager_wakes
    ∷ server_returns
    ∷ []

served_runs :
    ((run served started).phase ≡ ended) × ((run served started).manager.is_shutting_down ≡ true)
unfolding run
served_runs = (refl, refl)

abbrev serving_process : Process
serving_process = run (advances ∷ advances ∷ []) started

run-interrupts_example :
    let q = run (interrupts ∷ calls Lifecycle.drains ∷ []) serving_process in
    ((q.phase ≢ serving) ⊎ ((step server_wakes q).phase ≡ stopping))
    × ((step manager_wakes q).manager.is_shutting_down ≡ true)
unfolding run
run-interrupts_example =
    run-interrupts (calls Lifecycle.drains ∷ []) serving_process refl refl refl refl (tt, tt)

-- Ctrl-C while `run` makes the manager.
run-interrupted_early_example :
    (run
      (advances ∷ interrupts ∷ server_wakes ∷ [])
      (run (advances ∷ interrupts ∷ []) started)).phase
    ≡ serving
unfolding run
run-interrupted_early_example =
    run-interrupted_early (advances ∷ interrupts ∷ []) (interrupts ∷ server_wakes ∷ []) refl refl
      (tt, (tt, tt))

run-WasTold_example :
    IsWellFormed (run served started).manager
    × (((run served started).manager.is_shutting_down ≡ false) ⊎ WasTold (run served started))
run-WasTold_example = run-WasTold served

-- `main` starts nothing where the address cannot be read.
main_runs : main (record { port = 80; listen_interface = none }) ≡ runs started
unfolding main try_from parse_socket_addr read_socket_addr_v4 read_ipv4_addr decimal
main_runs = refl
