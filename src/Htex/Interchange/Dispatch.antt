-- ===== src/Htex/Interchange/Dispatch.antt =====
-- Tasks go from the queue to the managers (parsl/executors/high_throughput/interchange.py).
use parsl.Prelude.{
  ℕ, ◌+◌, ◌-◌, not, ◌&&◌, Option, none, some, List, [], ◌∷◌, ◌++◌, map, length, ltb, ◌==◌,
  if◌then◌else◌,
}
use mathlib.Core.List.{reverse}
use parsl.Htex.Interchange.State.{
  Interchange, ManagerRecord, Managers, Entry, tasks_for, get_manager, put_manager, has, discard,
}
use parsl.Htex.Interchange.Queue.{get_tasks}

-- `ManagerSelector.sort_managers`: the order in which the managers are tried, from its end.
abbrev pub Selector : Type 0
Selector = Managers → List ℕ → List ℕ

abbrev pub task_ids : List Entry → List ℕ
task_ids = map (λ (e : Entry). e.task_id)

-- `interesting_managers.remove(manager_id)`; `none` is a KeyError, as everywhere in this file.
unfoldable pub remove_interesting : ℕ → Interchange → Option Interchange
unfolding has discard
remove_interesting k ix =
    if has k ix.interesting
    then some (record ix { interesting = discard k ix.interesting })
    else none

-- Tasks are sent to the manager, and it leaves the interesting managers when it is full.
unfoldable pub send_tasks :
    ℕ → ManagerRecord → ℕ → List Entry → List Entry → Interchange → Option Interchange
unfolding put_manager remove_interesting
send_tasks k m real_capacity tasks rest ix =
    let ids = task_ids tasks in
    let sent : Interchange = record ix {
      pending = rest;
      count = ix.count + length tasks;
      ready_managers =
          put_manager k (record m { tasks = m.tasks ++ ids; idle_since = none }) ix.ready_managers;
      to_managers = ix.to_managers ++ tasks_for k ids ∷ [];
    } in
    if ltb (length tasks) real_capacity then some sent else remove_interesting k sent

abbrev pub send_any :
    ℕ → ManagerRecord → ℕ → List Entry → List Entry → Interchange → Option Interchange
send_any k m real_capacity [] rest ix = some ix
send_any k m real_capacity (t ∷ ts) rest ix = send_tasks k m real_capacity (t ∷ ts) rest ix

-- One manager of the loop. The real capacity is 0 when the manager holds as many tasks as it can;
-- it would be negative past that, and then no task is taken, as here.
unfoldable pub offer : ℕ → ManagerRecord → Interchange → Option Interchange
unfolding send_tasks remove_interesting get_tasks
offer k m ix =
    let tasks_inflight = length m.tasks in
    let real_capacity = m.max_capacity - tasks_inflight in
    if not (m.max_capacity == tasks_inflight) && (m.active && not m.draining)
    then (let (tasks, rest) = get_tasks real_capacity ix.pending in
        send_any k m real_capacity tasks rest ix)
    else remove_interesting k ix

abbrev pub and_then {ℓ} : {A : Type ℓ} → Option A → (A → Option A) → Option A
and_then none f = none
and_then (some x) f = f x

abbrev pub offer_known : ℕ → Option ManagerRecord → Interchange → Option Interchange
offer_known k none ix = none
offer_known k (some m) ix = offer k m ix

-- The loop over the managers, while tasks are left.
unfoldable pub offer_each : List ℕ → Interchange → Option Interchange
unfolding offer get_manager
offer_each [] ix = some ix
offer_each (k ∷ ks) ix = elim ix.pending [
  | [] ↦ some ix
  | e ∷ es ↦ and_then (offer_known k (get_manager k ix.ready_managers) ix) (offer_each ks)
]

unfoldable pub process_tasks_to_send : Selector → Interchange → Option Interchange
unfolding offer_each
process_tasks_to_send sort_managers ix = elim ix.interesting [
  | [] ↦ some ix
  | k ∷ ks ↦ offer_each (reverse (sort_managers ix.ready_managers ix.interesting)) ix
]
