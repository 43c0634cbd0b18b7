-- ===== src/Dataflow/Kernel.antt =====
-- The data flow kernel of parsl/dataflow/dflow.py: all tasks, and the events that change them.
pub mod Counting
pub mod Reachable
pub mod Tallies
pub mod Outcomes
pub mod Tries
pub mod Unwrapping
pub mod Unwrapped
pub mod Launching
pub mod JoinResults
use parsl.Prelude.{
  ℕ, ◌+◌, String, Bool, false, true, ◌≡◌, Option, none, some, List, [], ◌∷◌, ◌++◌, length,
  get_elem?, set, if◌then◌else◌, ◌==◌,
}
use parsl.Dataflow.Objects.{
  Object, FutureState, Futures, Result, Ref, app_future, other_future, unresolved, done,
}
use parsl.Dataflow.States.{States, same, unsched, pending}
use parsl.Dataflow.Record.{
  TaskRecord, Counts, Context, context_of, update_task_state, launch_if_ready,
}
use parsl.Dataflow.Config.{Config}
use parsl.Dataflow.Joins.{handle_join_update}
use parsl.Dataflow.Exec.{handle_exec_update}
use parsl.Dataflow.Launch.{Answers, launch_if_ready_async, gather_all_deps}
use parsl.Dataflow.Invariant.{Calls}

-- Task ids are given in order from 0, so the task with id `i` stands at place `i`; a record that
-- `wipe_task` drops from the table lives on behind its future, and is kept here. `others` are the
-- futures that belong to no task of this kernel.
pub record Kernel : Type 0 where
  pub tasks : List TaskRecord
  pub counts : Counts
  pub pool : List ℕ
  pub others : ℕ → FutureState
  pub cleanup_called : Bool

abbrev pub empty : Kernel
empty = record {
  tasks = [];
  counts = λ s. 0;
  pool = [];
  others = λ n. unresolved;
  cleanup_called = false;
}

abbrev pub future_of : Option TaskRecord → FutureState
future_of none = unresolved
future_of (some t) = t.app_fu

abbrev pub look : Kernel → Futures
look k (app_future i) = future_of (get_elem? k.tasks i)
look k (other_future n) = k.others n

-- An event of one task: its handler runs in the context of that task.
abbrev pub context : Kernel → TaskRecord → Context
context k t = record { counts = k.counts; pool = k.pool; task = t }

abbrev pub put_back : Kernel → ℕ → Context → Kernel
put_back k i c = record k { tasks = set k.tasks i c.task; counts = c.counts; pool = c.pool }

-- The record that `submit` builds, for arguments that need no staging.
unfoldable pub new_task :
    Config → ℕ → List Object → List (String × Object) → String → Bool → TaskRecord
unfolding gather_all_deps
new_task cfg id args kwargs executor join = record {
  id = id;
  args = args;
  kwargs = kwargs;
  depends = gather_all_deps cfg.dependency_resolver args kwargs;
  executor = executor;
  join = join;
  joins = none;
  status = unsched;
  try_id = 0;
  fail_count = 0;
  fail_cost = 0;
  fail_history = [];
  from_memo = false;
  exec_fu = none;
  app_fu = unresolved;
}

-- `update_task_state` on a record that has no status yet only counts up.
unfoldable pub count_new : States → Counts → Counts
unfolding same
count_new new counts s = if same new s then counts s + 1 else counts s

-- `submit`, once it is known that the kernel is open.
unfoldable pub add_task :
    Config → List Object → List (String × Object) → String → Bool → Kernel → Kernel
unfolding new_task count_new update_task_state launch_if_ready
add_task cfg args kwargs executor join k =
    let task = new_task cfg (length k.tasks) args kwargs executor join in
    let counted = record (context k task) { counts = count_new unsched k.counts } in
    let made = context_of (update_task_state pending counted) in
    let queued = context_of (launch_if_ready made) in
    record k { tasks = k.tasks ++ queued.task ∷ []; counts = queued.counts; pool = queued.pool }

-- `submit`; `none` is the NoDataFlowKernelError after a cleanup.
unfoldable pub submit :
    Config → List Object → List (String × Object) → String → Bool → Kernel → Option Kernel
unfolding add_task
submit cfg args kwargs executor join k =
    if k.cleanup_called then none else some (add_task cfg args kwargs executor join k)

-- The contexts in which the events of one task end: its launch, from the pool; the end of its try,
-- whose future is done by then; a callback of what it joins on.
abbrev pub launched_context : Config → Kernel → List ℕ → TaskRecord → Answers → Context
launched_context cfg k rest t answers =
    launch_if_ready_async cfg (look k) answers (record (context k t) { pool = rest })

abbrev pub ended_context : Config → Kernel → TaskRecord → Result Object → Context
ended_context cfg k t r =
    context_of
      (handle_exec_update cfg (look k) (done r) (context k (record t { exec_fu = some (done r) })))

abbrev pub joined_context : Kernel → TaskRecord → Option Ref → Context
joined_context k t inner = context_of (handle_join_update (look k) inner (context k t))

-- What may happen next. The executor resolves the future of a try, a joined future calls back,
-- the pool's thread takes an id, and a dependency's callback asks for a launch at any time.
pub data Step (cfg : Config) : Kernel → Kernel → Type 0 where
  submitted :
      (k k' : Kernel) (args : List Object) (kwargs : List (String × Object)) (executor : String)
      (join : Bool)
      → submit cfg args kwargs executor join k ≡ some k'
      → Step cfg k k'
  launch :
      (k : Kernel) (i : ℕ) (rest : List ℕ) (t : TaskRecord) (answers : Answers)
      → k.pool ≡ i ∷ rest
      → get_elem? k.tasks i ≡ some t
      → Step cfg k (
          put_back k i
            (launch_if_ready_async cfg (look k) answers (record (context k t) { pool = rest })))
  try_ended :
      (k : Kernel) (i : ℕ) (t : TaskRecord) (r : Result Object)
      → get_elem? k.tasks i ≡ some t
      → t.exec_fu ≡ some unresolved
      → Step cfg k (
          put_back k i (
            context_of (
              handle_exec_update cfg
                (look k)
                (done r)
                (context k (record t { exec_fu = some (done r) })))))
  joined :
      (k : Kernel) (i : ℕ) (t : TaskRecord) (inner : Option Ref)
      → get_elem? k.tasks i ≡ some t
      → Calls (look k) inner t.joins
      → Step cfg k (put_back k i (joined_context k t inner))
  wake : (k : Kernel) (i : ℕ) → Step cfg k (record k { pool = k.pool ++ i ∷ [] })
  other_resolved :
      (k : Kernel) (n : ℕ) (r : Result Object)
      → k.others n ≡ unresolved
      → Step cfg k (record k { others = λ m. if m == n then done r else k.others m })
  cleanup : (k : Kernel) → Step cfg k (record k { cleanup_called = true })

pub data Reach (cfg : Config) : Kernel → Type 0 where
  start : Reach cfg empty
  next : {k k' : Kernel} → Reach cfg k → Step cfg k k' → Reach cfg k'
