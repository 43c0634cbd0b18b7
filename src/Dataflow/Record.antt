-- ===== src/Dataflow/Record.antt =====
-- A task's record (parsl/dataflow/taskrecord.py) with the part of the kernel that a handler of
-- one task changes, and the actions that the handlers are built from. The time stamps, the locks
-- and the messages to monitoring are left out.
use parsl.Prelude.{ℕ, ◌+◌, ◌-◌, String, Bool, Option, List, [], ◌∷◌, ◌++◌, if◌then◌else◌}
use parsl.Dataflow.Objects.{Error, Object, FutureState, Result, Ref, unresolved, done}
use parsl.Dataflow.States.{States, same}

pub record TaskRecord : Type 0 where
  pub id : ℕ
  pub args : List Object
  pub kwargs : List (String × Object)
  pub depends : List Ref
  pub executor : String
  pub join : Bool
  pub joins : Option Object
  pub status : States
  pub try_id : ℕ
  pub fail_count : ℕ
  pub fail_cost : ℕ
  pub fail_history : List Error
  pub from_memo : Bool
  -- the future of the current try: none before the first launch
  pub exec_fu : Option FutureState
  pub app_fu : FutureState

-- `task_state_counts` of the kernel.
abbrev pub Counts : Type 0
Counts = States → ℕ

-- `pool` holds the ids submitted to `dependency_launch_pool` and not yet taken from it.
pub record Context : Type 0 where
  pub counts : Counts
  pub pool : List ℕ
  pub task : TaskRecord

-- What a handler may raise: a second result for a future (InvalidStateError), an
-- InternalConsistencyError, a failed assertion, a TypeError; `blocked` is a wait for a future that
-- is not resolved.
pub data Fault : Type 0 where
  invalid_state internal_inconsistency assertion_failed type_error blocked : Fault

pub data Run : Type 0 where
  returned : Context → Run
  faulted : Fault → Context → Run

-- An action changes the context, or raises and leaves what it changed before.
abbrev pub Action : Type 0
Action = Context → Run

infixl 5 ◌then◌
abbrev pub ◌then◌ : Action → Action → Action
◌then◌ first second ctx = elim (first ctx) [ returned c ↦ second c | faulted f c ↦ faulted f c ]

abbrev pub pass : Action
pass ctx = returned ctx

abbrev pub raise : Fault → Action
raise f ctx = faulted f ctx

abbrev pub modify : (TaskRecord → TaskRecord) → Action
modify f ctx = returned (record ctx { task = f ctx.task })

-- `concurrent.futures` runs a callback so: what it raises is logged and dropped.
abbrev pub context_of : Run → Context
context_of (returned c) = c
context_of (faulted f c) = c

abbrev pub ignoring : Action → Action
ignoring a ctx = returned (context_of (a ctx))

-- `counts[old] -= 1; counts[new] += 1`
unfoldable pub recount : States → States → Counts → Counts
unfolding same
recount old new counts s =
    let less : ℕ = if same old s then counts s - 1 else counts s in
    if same new s then less + 1 else less

unfoldable pub update_task_state : States → Action
update_task_state new ctx = returned (record ctx {
  counts = recount ctx.task.status new ctx.counts;
  task = record ctx.task { status = new };
})

-- `set_result` and `set_exception` raise InvalidStateError on a future that is done.
abbrev pub set_done : Result Object → FutureState → Action
set_done r unresolved ctx = returned (record ctx { task = record ctx.task { app_fu = done r } })
set_done r (done _) ctx = faulted invalid_state ctx

unfoldable pub set_app_fu : Result Object → Action
set_app_fu r ctx = set_done r ctx.task.app_fu ctx

-- `launch_if_ready`: the launch itself is done by the pool's one thread.
unfoldable pub launch_if_ready : Action
launch_if_ready ctx = returned (record ctx { pool = ctx.pool ++ ctx.task.id ∷ [] })
