-- ===== src/Htex/Interchange/Expire.antt =====
-- Managers that are drained or lost leave (parsl/executors/high_throughput/interchange.py).
use parsl.Prelude.{
  ℕ, ◌+◌, ◌&&◌, Option, none, some, List, [], ◌∷◌, ◌++◌, map, length, ltb, ◌==◌, if◌then◌else◌,
}
use parsl.Htex.Interchange.State.{
  Interchange, ManagerRecord, Managers, drained_for, manager_lost, get_manager, pop_manager,
  discard,
}
use parsl.Htex.Interchange.Dispatch.{and_then, remove_interesting}

-- One manager of the loop; `none` is a KeyError.
unfoldable pub expire_drained : ℕ → Option ManagerRecord → Interchange → Option Interchange
unfolding pop_manager remove_interesting
expire_drained k none ix = none
expire_drained k (some m) ix =
    if m.draining && (length m.tasks == 0)
    then remove_interesting k (record ix {
      to_managers = ix.to_managers ++ drained_for k ∷ [];
      ready_managers = pop_manager k ix.ready_managers;
    })
    else some ix

unfoldable pub expire_drained_each : List ℕ → Interchange → Option Interchange
unfolding expire_drained get_manager
expire_drained_each [] ix = some ix
expire_drained_each (k ∷ ks) ix =
    and_then (expire_drained k (get_manager k ix.ready_managers) ix) (expire_drained_each ks)

unfoldable pub expire_drained_managers : Interchange → Option Interchange
unfolding expire_drained_each
expire_drained_managers ix = expire_drained_each ix.interesting ix

-- The managers of whom no heartbeat came for longer than the threshold. All are compared with one
-- reading of the clock.
unfoldable pub bad_managers : ℕ → ℕ → Managers → Managers
bad_managers now threshold [] = []
bad_managers now threshold ((k, m) ∷ ms) =
    let rest = bad_managers now threshold ms in
    if ltb (m.last_heartbeat + threshold) now then (k, m) ∷ rest else rest

-- A failure goes out for each task of a lost manager.
unfoldable pub unregister : ℕ → ManagerRecord → Interchange → Interchange
unfolding pop_manager discard
unregister k m ix = record ix {
  results_outgoing = ix.results_outgoing ++ map (λ t. manager_lost t k) m.tasks;
  ready_managers = pop_manager k ix.ready_managers;
  interesting = discard k ix.interesting;
}

unfoldable pub unregister_each : Managers → Interchange → Interchange
unfolding unregister
unregister_each [] ix = ix
unregister_each ((k, m) ∷ ms) ix = unregister_each ms (unregister k m ix)

unfoldable pub expire_bad_managers : ℕ → ℕ → Interchange → Interchange
unfolding bad_managers unregister_each
expire_bad_managers now threshold ix =
    unregister_each (bad_managers now threshold ix.ready_managers) ix
