-- ===== src/Server/Calls.antt =====
-- What the calls of clients do to the manager of a server.
use aggbook.Prelude.{◌≡◌, ◌≢◌, refl, sym, ap, subst, ◌∙◌}
use aggbook.Factory.{Source, new_factory_map}
use aggbook.Instrument.{instruments}
use aggbook.Manager.{Manager}
use aggbook.Manager.Flag.{step-is_shutting_down}
use aggbook.Manager.Lifecycle as Lifecycle
use aggbook.Manager.Lifecycle.{step-IsWellFormed}
use aggbook.Manager.Table.{IsWellFormed}
use aggbook.Server.{call, depth}

-- A call does nothing, or what the manager does.
data Calls (e : Lifecycle.Event) (m : Manager Source) : Type 0 where
  nothing : call e m ≡ m → Calls e m
  serves :
      e ≢ Lifecycle.begins_shutdown
      → call e m ≡ Lifecycle.step instruments (new_factory_map depth) e m
      → Calls e m

call-Calls : (e : Lifecycle.Event) (m : Manager Source) → Calls e m
unfolding call
call-Calls Lifecycle.begins_shutdown m = nothing refl
call-Calls (Lifecycle.opens s) m = serves (λ e. cc e) refl
call-Calls (Lifecycle.subscribes f) m = serves (λ e. cc e) refl
call-Calls (Lifecycle.unsubscribes f) m = serves (λ e. cc e) refl
call-Calls (Lifecycle.waits f) m = serves (λ e. cc e) refl
call-Calls (Lifecycle.expires f) m = serves (λ e. cc e) refl
call-Calls Lifecycle.drains m = serves (λ e. cc e) refl
call-Calls Lifecycle.shuts_next m = serves (λ e. cc e) refl

pub call-is_shutting_down :
    (e : Lifecycle.Event) (m : Manager Source) → (call e m).is_shutting_down ≡ m.is_shutting_down
call-is_shutting_down e m = elim (call-Calls e m) [
  | nothing q ↦ ap (λ (m : Manager Source). m.is_shutting_down) q
  | serves h q ↦
      ap (λ (m : Manager Source). m.is_shutting_down) q
      ∙ step-is_shutting_down instruments (new_factory_map depth) e m h
]

pub call-IsWellFormed :
    (e : Lifecycle.Event) (m : Manager Source) → IsWellFormed m → IsWellFormed (call e m)
call-IsWellFormed e m w = elim (call-Calls e m) [
  | nothing q ↦ subst IsWellFormed (sym q) w
  | serves h q ↦
      subst IsWellFormed (sym q) (step-IsWellFormed instruments (new_factory_map depth) e m w)
]
