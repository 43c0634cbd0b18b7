-- ===== src/Htex/Mpi.antt =====
-- parsl/executors/high_throughput/mpi_resource_management.py: the scheduler that places MPI tasks
-- on the nodes of one batch job. A node and a task are ids; the packed function is left out.
pub mod Nodes
pub mod Stuck
pub mod Backlog
use parsl.Prelude.{
  ℕ, zero, suc, ◌+◌, ◌-◌, Bool, Option, none, some, List, [], ◌∷◌, ◌++◌, length, leb, ◌==◌,
  if◌then◌else◌,
}

-- A task with `num_nodes` of its resource specification; 0 stands for a missing entry too.
pub record MpiTask : Type 0 where
  pub task_id : ℕ
  pub num_nodes : ℕ

-- `backlog_queue` is in the order of its priorities. The queue of the standard library says
-- nothing of entries with the same priority: here the one that came first is taken first.
pub record MpiTaskScheduler : Type 0 where
  pub free_node_counter : ℕ
  pub nodes_q : List ℕ
  pub backlog_queue : List MpiTask
  pub map_tasks_to_nodes : List (ℕ × List ℕ)
  pub pending_task_q : List (MpiTask × List ℕ)

-- A call returns, waits for a node for ever, or raises.
pub data CallResult : Type 0 where
  finished : MpiTaskScheduler → CallResult
  blocked recursion_error assertion_error : CallResult

-- `nodes_q.get()`, this many times; `none` is a wait.
unfoldable pub take_nodes : ℕ → List ℕ → Option (List ℕ × List ℕ)
take_nodes zero nodes = some ([], nodes)
take_nodes (suc n) [] = none
take_nodes (suc n) (x ∷ nodes) = elim (take_nodes n nodes) [
  | none ↦ none
  | some (acquired, rest) ↦ some (x ∷ acquired, rest)
]

pub data Acquired : Type 0 where
  acquired : List ℕ → MpiTaskScheduler → Acquired
  unavailable waiting : Acquired

abbrev pub take_from : ℕ → Option (List ℕ × List ℕ) → MpiTaskScheduler → Acquired
take_from n none s = waiting
take_from n (some (nodes, rest)) s =
    acquired nodes (record s { free_node_counter = s.free_node_counter - n; nodes_q = rest })

-- `_get_nodes`; `unavailable` is MPINodesUnavailable.
unfoldable pub get_nodes : ℕ → MpiTaskScheduler → Acquired
unfolding take_nodes
get_nodes n s =
    if leb n s.free_node_counter then take_from n (take_nodes n s.nodes_q) s else unavailable

-- `_return_nodes`
unfoldable pub return_nodes : List ℕ → MpiTaskScheduler → MpiTaskScheduler
return_nodes nodes s = record s {
  nodes_q = s.nodes_q ++ nodes;
  free_node_counter = s.free_node_counter + length nodes;
}

-- `PriorityQueue.put`
unfoldable pub put_backlog : MpiTask → List MpiTask → List MpiTask
put_backlog t [] = t ∷ []
put_backlog t (x ∷ xs) = if leb x.num_nodes t.num_nodes then x ∷ put_backlog t xs else t ∷ x ∷ xs

-- `d[k] = v` and `d.get(k)` of `_map_tasks_to_nodes`
unfoldable pub put_nodes : ℕ → List ℕ → List (ℕ × List ℕ) → List (ℕ × List ℕ)
put_nodes k nodes [] = (k, nodes) ∷ []
put_nodes k nodes ((j, old) ∷ d) = if j == k then (j, nodes) ∷ d else (j, old) ∷ put_nodes k nodes d

unfoldable pub nodes_of : ℕ → List (ℕ × List ℕ) → Option (List ℕ)
nodes_of k [] = none
nodes_of k ((j, nodes) ∷ d) = if j == k then some nodes else nodes_of k d

abbrev pub place : MpiTask → Acquired → MpiTaskScheduler → CallResult
place t (acquired nodes s') s = finished (record s' {
  map_tasks_to_nodes = put_nodes t.task_id nodes s'.map_tasks_to_nodes;
  pending_task_q = s'.pending_task_q ++ (t, nodes) ∷ [];
})
place t unavailable s = finished (record s { backlog_queue = put_backlog t s.backlog_queue })
place t waiting s = blocked

unfoldable pub put_task : MpiTask → MpiTaskScheduler → CallResult
unfolding get_nodes put_backlog put_nodes
put_task t s =
    if t.num_nodes == 0
    then finished (record s { pending_task_q = s.pending_task_q ++ (t, []) ∷ [] })
    else place t (get_nodes t.num_nodes s) s

abbrev pub after : CallResult → (MpiTaskScheduler → CallResult) → CallResult
after (finished s) f = f s
after blocked f = blocked
after recursion_error f = recursion_error
after assertion_error f = assertion_error

abbrev pub attempt : List MpiTask → MpiTaskScheduler → (MpiTaskScheduler → CallResult) → CallResult
attempt [] s again = finished s
attempt (t ∷ ts) s again = after (put_task t (record s { backlog_queue = ts })) again

-- `_schedule_backlog_tasks`. The depth is how often it may still call itself before Python raises
-- RecursionError.
unfoldable pub schedule_backlog_tasks : ℕ → MpiTaskScheduler → CallResult
unfolding put_task
schedule_backlog_tasks zero s = recursion_error
schedule_backlog_tasks (suc depth) s = attempt s.backlog_queue s (schedule_backlog_tasks depth)

abbrev pub relinquish : ℕ → Option (List ℕ) → MpiTaskScheduler → CallResult
relinquish depth none s = assertion_error
relinquish depth (some nodes) s = schedule_backlog_tasks depth (return_nodes nodes s)

-- What `get_result` takes from the queue of results.
pub data Taken : Type 0 where
  no_result other_message : Taken
  result_of : ℕ → Taken

unfoldable pub get_result : ℕ → Taken → MpiTaskScheduler → CallResult
unfolding return_nodes schedule_backlog_tasks nodes_of
get_result depth no_result s = finished s
get_result depth other_message s = finished s
get_result depth (result_of task_id) s = relinquish depth (nodes_of task_id s.map_tasks_to_nodes) s
