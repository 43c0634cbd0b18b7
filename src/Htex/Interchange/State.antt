-- ===== src/Htex/Interchange/State.antt =====
-- The state of parsl/executors/high_throughput/interchange.py, and its tables.
use parsl.Prelude.{
  ℕ, Bool, true, false, Option, none, some, List, [], ◌∷◌, ◌++◌, ◌==◌, if◌then◌else◌,
}

-- manager_record.py: the fields that the interchange acts on. A time is a number of ticks.
pub record ManagerRecord : Type 0 where
  pub block_id : ℕ
  pub tasks : List ℕ
  pub worker_count : ℕ
  pub max_capacity : ℕ
  pub active : Bool
  pub draining : Bool
  pub last_heartbeat : ℕ
  pub idle_since : Option ℕ
  pub packages : List ℕ

-- An entry of `pending_task_queue`: the priority (`none` is the default, infinity), the value of
-- the task counter, and the task. A larger number is a lower priority.
pub record Entry : Type 0 where
  pub priority : Option ℕ
  pub counter : ℕ
  pub task_id : ℕ

-- What goes to the managers, and what goes to the executor: results, each with its task id, and
-- for a lost manager a failure for each of its tasks.
pub data ManagerMessage : Type 0 where
  tasks_for : ℕ → List ℕ → ManagerMessage
  heartbeat_for drained_for : ℕ → ManagerMessage

pub data Outcome : Type 0 where
  result : (task_id payload : ℕ) → Outcome
  manager_lost : (task_id manager_id : ℕ) → Outcome
  version_mismatch : Outcome

abbrev pub Managers : Type 0
Managers = List (ℕ × ManagerRecord)

-- `pending` is the sorted list from its end: its head is what `pop()` takes. `interesting` is the
-- set of managers to look at, which `start` hands to each of its steps.
pub record Interchange : Type 0 where
  pub pending : List Entry
  pub task_counter : ℕ
  pub count : ℕ
  pub ready_managers : Managers
  pub connected_block_history : List ℕ
  pub interesting : List ℕ
  pub to_managers : List ManagerMessage
  pub results_outgoing : List Outcome
  pub killed : Bool

-- `d.get(k)`, `d[k] = v` and `d.pop(k)` of the dictionary of managers.
unfoldable pub get_manager : ℕ → Managers → Option ManagerRecord
get_manager k [] = none
get_manager k ((j, m) ∷ ms) = if j == k then some m else get_manager k ms

unfoldable pub put_manager : ℕ → ManagerRecord → Managers → Managers
put_manager k m [] = (k, m) ∷ []
put_manager k m ((j, n) ∷ ms) = if j == k then (j, m) ∷ ms else (j, n) ∷ put_manager k m ms

unfoldable pub pop_manager : ℕ → Managers → Managers
pop_manager k [] = []
pop_manager k ((j, m) ∷ ms) = if j == k then ms else (j, m) ∷ pop_manager k ms

-- A set of manager ids.
unfoldable pub has : ℕ → List ℕ → Bool
has k [] = false
has k (j ∷ js) = if j == k then true else has k js

unfoldable pub add : ℕ → List ℕ → List ℕ
unfolding has
add k js = if has k js then js else js ++ k ∷ []

unfoldable pub discard : ℕ → List ℕ → List ℕ
discard k [] = []
discard k (j ∷ js) = let rest = discard k js in if j == k then rest else j ∷ rest
