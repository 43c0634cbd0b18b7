-- ===== src/Htex/Pool.antt =====
-- The worker processes of a manager and its watchdog: worker, worker_watchdog, ferry_result and the
-- receipt of tasks in parsl/executors/high_throughput/process_worker_pool.py.
pub mod Sums
pub mod Accounts
pub mod Runs
mod Examples
use parsl.Prelude.{
  ℕ, zero, suc, ◌+◌, ◌-◌, Bool, true, false, Option, none, some, List, [], ◌∷◌, ◌++◌, get_elem?,
  set,
}

-- Where the process of a worker is in its loop: before it has counted itself as ready, waiting for a
-- task, with a task from the queue, with the task noted in `tasks_in_progress`, executing it, and with
-- the result put into the queue. A dead process keeps what was noted of it.
pub data Worker : Type 0 where
  starting waiting : Worker
  fetched noted executing reported : ℕ → Worker
  dead : Option ℕ → Worker

-- A message for the interchange: a result or an exception of the task, or WorkerLost.
pub data PoolResult : Type 0 where
  task_result task_exception worker_lost : ℕ → PoolResult

abbrev pub result_task : PoolResult → ℕ
result_task (task_result t) = t
result_task (task_exception t) = t
result_task (worker_lost t) = t

-- A worker's id is its place in `workers`, and in `tasks_in_progress`, where `none` is a missing key.
-- Tasks are ids, and `sent` is what the manager has sent to the interchange.
pub record Pool : Type 0 where
  pub pending_task_queue : List ℕ
  pub pending_result_queue : List PoolResult
  pub workers : List Worker
  pub tasks_in_progress : List (Option ℕ)
  pub ready_worker_count : ℕ
  pub sent : List PoolResult

-- What happens to a worker: each line of its loop that other processes can see, the end of its
-- process, and the watchdog's turn on it.
pub data Action : Type 0 where
  get_ready take_task note_task execute die watch : Action
  report : PoolResult → Action
  forget_task : Action

abbrev pub put_worker : ℕ → Worker → Pool → Pool
put_worker i w p = record p { workers = set p.workers i w }

abbrev pub start_task : ℕ → List ℕ → Pool → Option Pool
start_task i [] p = none
start_task i (t ∷ ts) p = some (put_worker i (fetched t) (record p { pending_task_queue = ts }))

-- The watchdog reads the dictionary, and not the worker's own state.
abbrev pub restart : ℕ → Option ℕ → Pool → Pool
restart i none p = put_worker i starting p
restart i (some t) p = put_worker i starting (record p {
  pending_result_queue = p.pending_result_queue ++ worker_lost t ∷ [];
  tasks_in_progress = set p.tasks_in_progress i none;
})

abbrev pub join {ℓ} : {A : Type ℓ} → Option (Option A) → Option A
join none = none
join (some o) = o

abbrev pub put_result : ℕ → ℕ → PoolResult → Pool → Option Pool
put_result i t (task_result _) p = some (
    put_worker i (reported t)
      (record p { pending_result_queue = p.pending_result_queue ++ task_result t ∷ [] }))
put_result i t (task_exception _) p = some (
    put_worker i (reported t)
      (record p { pending_result_queue = p.pending_result_queue ++ task_exception t ∷ [] }))
put_result i t (worker_lost _) p = none

-- What a worker of this state does; `none` is what it does not do.
unfoldable pub act : ℕ → Action → Worker → Pool → Option Pool
act i get_ready starting p =
    some (put_worker i waiting (record p { ready_worker_count = p.ready_worker_count + 1 }))
act i take_task waiting p = start_task i p.pending_task_queue p
act i note_task (fetched t) p =
    some
      (put_worker i (noted t) (record p { tasks_in_progress = set p.tasks_in_progress i (some t) }))
act i execute (noted t) p =
    some (put_worker i (executing t) (record p { ready_worker_count = p.ready_worker_count - 1 }))
act i (report r) (executing t) p = put_result i t r p
act i forget_task (reported t) p =
    some (put_worker i starting (record p { tasks_in_progress = set p.tasks_in_progress i none }))
act i die starting p = some (put_worker i (dead none) p)
act i die waiting p = some (put_worker i (dead none) p)
act i die (fetched t) p = some (put_worker i (dead none) p)
act i die (noted t) p = some (put_worker i (dead (some t)) p)
act i die (executing t) p = some (put_worker i (dead (some t)) p)
act i die (reported t) p = some (put_worker i (dead (some t)) p)
act i watch (dead _) p = some (restart i (join (get_elem? p.tasks_in_progress i)) p)
act i _ _ p = none

pub data Event : Type 0 where
  receive : List ℕ → Event
  at_worker : ℕ → Action → Event
  ferry : Event

abbrev pub act_on : ℕ → Action → Option Worker → Pool → Option Pool
act_on i a none p = none
act_on i a (some w) p = act i a w p

abbrev pub send_first : List PoolResult → Pool → Option Pool
send_first [] p = none
send_first (r ∷ rs) p = some (record p { pending_result_queue = rs; sent = p.sent ++ r ∷ [] })

unfoldable pub happen : Event → Pool → Option Pool
unfolding act
happen (receive ts) p = some (record p { pending_task_queue = p.pending_task_queue ++ ts })
happen (at_worker i a) p = act_on i a (get_elem? p.workers i) p
happen ferry p = send_first p.pending_result_queue p

unfoldable pub run : List Event → Pool → Option Pool
unfolding happen
run [] p = some p
run (e ∷ es) p = elim (happen e p) [ none ↦ none | some q ↦ run es q ]

unfoldable pub starting_workers : ℕ → List Worker
starting_workers zero = []
starting_workers (suc n) = starting ∷ starting_workers n

unfoldable pub no_tasks : ℕ → List (Option ℕ)
no_tasks zero = []
no_tasks (suc n) = none ∷ no_tasks n

-- `start`: this many workers.
unfoldable pub new_pool : ℕ → Pool
unfolding starting_workers no_tasks
new_pool n = record {
  pending_task_queue = [];
  pending_result_queue = [];
  workers = starting_workers n;
  tasks_in_progress = no_tasks n;
  ready_worker_count = 0;
  sent = [];
}
