-- ===== src/Server.antt =====
-- The process of the server: crates/aggserver/src/main.rs, crates/aggserver/src/server.rs and
-- crates/aggcommon/src/shutdown.rs, with the watcher that `Manager::new` starts. The channel of the
-- shutdown is its receivers, each with what it has got. A step is one action of the thread of `main`,
-- of the task that waits for Ctrl-C, of the manager's watcher, of the gRPC server or of a call.
pub mod Calls
pub mod Signals
pub mod Soundness
use aggbook.Prelude.{ℕ, Bool, true, false, String, List, [], ◌∷◌, if◌then◌else◌}
use aggbook.Config.{Cli, AppConfigError, ConfigResult, loaded, refused, try_from}
use aggbook.Factory.{Source, new_factory_map}
use aggbook.Instrument.{instruments}
use aggbook.Manager.{Manager, new_manager, begin_shutdown}
use aggbook.Manager.Lifecycle as Lifecycle

-- `N` of `run`.
abbrev pub depth : ℕ
depth = 10

-- A receiver of the channel, which holds one signal: not made yet, waiting, with a signal that it has
-- not taken, with a signal of which it has missed one before, or done.
pub data Receiver : Type 0 where
  absent listening notified lagged taken : Receiver

-- `run` has made the channel; it has made the manager; it has made its own receiver and serves; the
-- server has taken the signal and lets its connections end; or `main` returns.
pub data Phase : Type 0 where
  preparing managing serving stopping : Phase
  ended : Phase
  failed : String → Phase

-- `sent` is that the task that waits for Ctrl-C has sent its signal, after which it ends.
pub record Process : Type 0 where
  pub phase : Phase
  pub sent : Bool
  pub manager_rx : Receiver
  pub server_rx : Receiver
  pub manager : Manager Source

abbrev pub started : Process
started = record {
  phase = preparing;
  sent = false;
  manager_rx = absent;
  server_rx = absent;
  manager = new_manager;
}

pub data Event : Type 0 where
  -- `main` goes on to its next call.
  advances : Event
  -- Ctrl-C, or a failure to listen for it.
  interrupts : Event
  manager_wakes server_wakes : Event
  -- The server returns, after its connections have ended, or with an error.
  server_returns : Event
  server_fails : String → Event
  -- A call of the manager, or what its tasks do.
  calls : Lifecycle.Event → Event

-- `shutdown.send(())`.
abbrev pub notify : Receiver → Receiver
notify listening = notified
notify notified = lagged
notify r = r

abbrev pub send : Process → Process
send p = record p { manager_rx = notify p.manager_rx; server_rx = notify p.server_rx }

-- `Manager::new` and `shutdown.subscribe()`.
abbrev pub advance : Phase → Process → Process
advance preparing p = record p { phase = managing; manager_rx = listening }
advance managing p = record p { phase = serving; server_rx = listening }
advance _ p = p

abbrev pub interrupt : Bool → Process → Process
interrupt true p = p
interrupt false p = send (record p { sent = true })

-- The watcher asks whether `recv()` is `Ok`, which it is not where a signal was missed.
abbrev pub wake_manager : Receiver → Process → Process
wake_manager notified p = record p { manager_rx = taken; manager = begin_shutdown p.manager }
wake_manager lagged p = record p { manager_rx = taken }
wake_manager _ p = p

abbrev pub wake_server : Phase → Receiver → Process → Process
wake_server serving notified p = record p { phase = stopping; server_rx = taken }
wake_server serving lagged p = record p { phase = stopping; server_rx = taken }
wake_server _ _ p = p

abbrev pub return_server : Phase → Process → Process
return_server stopping p = record p { phase = ended }
return_server _ p = p

abbrev pub fail_server : Phase → Process → Process
fail_server serving p = send (record p { phase = failed "service failure" })
fail_server stopping p = send (record p { phase = failed "service failure" })
fail_server _ p = p

-- The flag of the manager is set by its watcher only.
unfoldable pub call : Lifecycle.Event → Manager Source → Manager Source
call Lifecycle.begins_shutdown m = m
call e m = Lifecycle.step instruments (new_factory_map depth) e m

unfoldable pub step : Event → Process → Process
step advances p = advance p.phase p
step interrupts p = interrupt p.sent p
step manager_wakes p = wake_manager p.manager_rx p
step server_wakes p = wake_server p.phase p.server_rx p
step server_returns p = return_server p.phase p
step (server_fails e) p = fail_server p.phase p
step (calls e) p = record p { manager = call e p.manager }

unfoldable pub run : List Event → Process → Process
unfolding step
run [] p = p
run (e ∷ es) p = run es (step e p)

-- `main` returns the error of a configuration that it cannot read before anything is started.
pub data Launch : Type 0 where
  runs : Process → Launch
  misconfigured : AppConfigError → Launch

abbrev pub launch : ConfigResult → Launch
launch (loaded config) = runs started
launch (refused e) = misconfigured e

unfoldable pub main : Cli → Launch
main cli = launch (try_from cli)
