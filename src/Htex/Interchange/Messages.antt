-- ===== src/Htex/Interchange/Messages.antt =====
-- The messages of managers (parsl/executors/high_throughput/interchange.py).
use parsl.Prelude.{
  ℕ, Bool, true, false, Option, none, some, List, [], ◌∷◌, ◌++◌, ◌==◌, if◌then◌else◌,
}
use mathlib.Core.Option
use parsl.Htex.Interchange.State.{
  Interchange, ManagerRecord, Outcome, heartbeat_for, result, version_mismatch, get_manager,
  put_manager, add,
}

-- What a registration says of its manager. The versions are compared outside the model.
pub record Registration : Type 0 where
  pub versions_match : Bool
  pub block_id : Option ℕ
  pub worker_count : ℕ
  pub max_capacity : ℕ
  pub packages : List ℕ

unfoldable pub new_record : ℕ → ℕ → Registration → ManagerRecord
new_record now block_id meta = record {
  block_id = block_id;
  tasks = [];
  worker_count = meta.worker_count;
  max_capacity = meta.max_capacity;
  active = true;
  draining = false;
  last_heartbeat = now;
  idle_since = some now;
  packages = meta.packages;
}

unfoldable pub accept_registration :
    ℕ → ℕ → Registration → Option ℕ → Interchange → Option Interchange
unfolding put_manager add new_record
accept_registration now k meta none ix = none
accept_registration now k meta (some block_id) ix = some (record ix {
  ready_managers = put_manager k (new_record now block_id meta) ix.ready_managers;
  connected_block_history = ix.connected_block_history ++ block_id ∷ [];
  interesting = add k ix.interesting;
})

-- A registration: versions that differ end the interchange; `none` is the AssertionError.
unfoldable pub register : ℕ → ℕ → Registration → Interchange → Option Interchange
unfolding accept_registration
register now k meta ix =
    if meta.versions_match
    then accept_registration now k meta meta.block_id ix
    else some (record ix {
      killed = true;
      results_outgoing = ix.results_outgoing ++ version_mismatch ∷ [];
    })

-- `m['tasks'].remove(tid)`: the first occurrence; `none` is the ValueError.
unfoldable pub remove : ℕ → List ℕ → Option (List ℕ)
remove t [] = none
remove t (x ∷ xs) = if x == t then some xs else Option.map (λ ys. x ∷ ys) (remove t xs)

-- What comes in a batch of results. The payload of a monitoring message goes to monitoring.
pub data BatchItem : Type 0 where
  task_result : (tid payload : ℕ) → BatchItem
  monitoring other_item : BatchItem

abbrev pub left_of : Option (List ℕ) → List ℕ → List ℕ
left_of none tasks = tasks
left_of (some left) tasks = left

abbrev pub pass_on : Option (List ℕ) → Outcome → List Outcome → List Outcome
pass_on none o out = out
pass_on (some left) o out = o ∷ out

-- The results of tasks that the manager holds are passed on, and the tasks taken from it.
unfoldable pub take_results : List BatchItem → List ℕ → List ℕ × List Outcome
unfolding remove
take_results [] tasks = (tasks, [])
take_results (task_result tid payload ∷ rs) tasks =
    let removed = remove tid tasks in
    let (final, out) = take_results rs (left_of removed tasks) in
    (final, pass_on removed (result tid payload) out)
take_results (monitoring ∷ rs) tasks = take_results rs tasks
take_results (other_item ∷ rs) tasks = take_results rs tasks

abbrev pub idle_after : ℕ → List ℕ → Option ℕ → Option ℕ
idle_after now [] none = some now
idle_after now _ idle = idle

abbrev pub store_results : ℕ → ℕ → ManagerRecord → List ℕ → List Outcome → Interchange → Interchange
store_results now k m left [] ix = record ix {
  ready_managers = put_manager k (record m { tasks = left }) ix.ready_managers;
}
store_results now k m left (o ∷ out) ix = record ix {
  ready_managers =
      put_manager k (record m { tasks = left; idle_since = idle_after now left m.idle_since })
        ix.ready_managers;
  interesting = add k ix.interesting;
  results_outgoing = ix.results_outgoing ++ o ∷ out;
}

-- A message of type 'result', with its batch.
unfoldable pub process_results : ℕ → ℕ → List BatchItem → ManagerRecord → Interchange → Interchange
unfolding take_results put_manager add
process_results now k rs m ix =
    let (left, out) = take_results rs m.tasks in store_results now k m left out ix

-- The messages of a manager other than its registration.
pub data ManagerRequest : Type 0 where
  results : List BatchItem → ManagerRequest
  heartbeat drain unknown : ManagerRequest

unfoldable pub answer_manager : ℕ → ℕ → ManagerRequest → ManagerRecord → Interchange → Interchange
unfolding process_results put_manager
answer_manager now k (results rs) m ix = process_results now k rs m ix
answer_manager now k heartbeat m ix = record ix {
  ready_managers = put_manager k (record m { last_heartbeat = now }) ix.ready_managers;
  to_managers = ix.to_managers ++ heartbeat_for k ∷ [];
}
answer_manager now k drain m ix = record ix {
  ready_managers = put_manager k (record m { draining = true }) ix.ready_managers;
}
answer_manager now k unknown m ix = ix

-- A message of a manager that is not known is ignored.
abbrev pub answer_known : ℕ → ℕ → ManagerRequest → Option ManagerRecord → Interchange → Interchange
answer_known now k request none ix = ix
answer_known now k request (some m) ix = answer_manager now k request m ix

pub data ManagerMessageIn : Type 0 where
  unreadable : ManagerMessageIn
  registration : ℕ → Registration → ManagerMessageIn
  request : ℕ → ManagerRequest → ManagerMessageIn

unfoldable pub process_manager_socket_message :
    ℕ → ManagerMessageIn → Interchange → Option Interchange
unfolding register answer_manager get_manager
process_manager_socket_message now unreadable ix = some ix
process_manager_socket_message now (registration k meta) ix = register now k meta ix
process_manager_socket_message now (request k asked) ix =
    some (answer_known now k asked (get_manager k ix.ready_managers) ix)
