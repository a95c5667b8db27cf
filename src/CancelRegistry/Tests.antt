-- ===== src/CancelRegistry/Tests.antt =====
-- Runs of the cancel registry (CancelRegistry.antt).
use meowth.Prelude.{◌+◌, ◌≤◌, ◌≡◌, ◌≢◌, refl, true, List, [], ◌∷◌, contains}
use meowth.CancelRegistry.{Registry, fired, new_cancel_registry, cancel, is_shutdown}
use meowth.CancelRegistry.Firing.{
  Op, register_op, unregister_op, cancel_op, cancel_all_op, run, fired_in, registered_in, armed,
  fires-le-registers,
}
use meowth.CancelRegistry.Shutdown.{cause_settled}

-- Two sessions are running, and one of them has been cancelled by its user.
abbrev half_cancelled : Registry
half_cancelled = record {
  cancels = ("a", 1) ∷ ("b", 2) ∷ [];
  requested = "a" ∷ [];
  shutdown_ids = [];
}

abbrev quarrel : List Op
quarrel = register_op "a" 1 ∷ cancel_op "a" ∷ cancel_all_op ∷ cancel_op "a" ∷ unregister_op "a" ∷ []

fires-le-registers_example :
    fired_in 1 quarrel new_cancel_registry
      + armed 1
          (run quarrel new_cancel_registry).cancels
          (run quarrel new_cancel_registry).requested
    ≤ registered_in 1 quarrel + armed 1 new_cancel_registry.cancels new_cancel_registry.requested
fires-le-registers_example = fires-le-registers 1 quarrel new_cancel_registry

a_requested : contains "a" half_cancelled.requested ≡ true
unfolding contains
a_requested = refl

cause_settled_example :
    (is_shutdown "a" (run (cancel_all_op ∷ []) half_cancelled) ≡ is_shutdown "a" half_cancelled)
    × ((cancel "a" (run (cancel_all_op ∷ []) half_cancelled)).1 ≢ fired)
cause_settled_example = cause_settled "a" (cancel_all_op ∷ []) half_cancelled a_requested (tt, tt)
