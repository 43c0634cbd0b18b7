-- ===== src/Dataflow/Invariant.antt =====
-- What holds of a task's record between two events of parsl/dataflow/dflow.py.
pub mod Joins
pub mod Exec
pub mod Launch
use parsl.Prelude.{
  ℕ, ◌∙◌, Bool, true, false, ◌≡◌, ◌⊎◌, inl, inr, refl, Option, none, some, List, [], ◌∷◌, arith,
  ==_iff, Bool-cases, if◌then◌else◌, ◌==◌,
}
use parsl.Dataflow.Objects.{
  Error, Failures, no_failures, failure, Object, Items, FutureState, Futures, Result, Ref, is_done,
  unresolved, done, ok, err, atom, exception_wrapper, future, sequence, nil, cons, list, tuple,
}
use parsl.Dataflow.States.{
  States, same, same_eq, same_self, is_final, unsched, pending, running, exec_done, failed,
  dep_fail, launched, fail_retryable, memo_done, joining, running_ended,
}
use parsl.Dataflow.Record.{TaskRecord, Context, Run, returned, faulted, context_of, set_app_fu}
use parsl.Dataflow.Config.{Config}
use parsl.Dataflow.Joins.{
  futures_of, all_done, exceptions_of, results_of, finish_join, join_one, join_many, join_on,
  handle_join_update, add_join_callbacks, start_join_list, start_join, refuse_join, begin_join,
  complete_task, is_ref,
}
use parsl.Dataflow.Exec.{
  handle_exec_update, settle_success, settle_failure, route_failure, relaunch_if_pending,
  unwrap_remote_exception_wrapper,
}
use parsl.Dataflow.Launch.{Answers, launch_if_ready_async, attach, launch_task}

-- The current try is still running.
abbrev pub is_waiting : Option FutureState → Bool
is_waiting (some unresolved) = true
is_waiting _ = false

-- The states that a record of the kernel takes between two events.
abbrev pub is_kernel_state : States → Bool
is_kernel_state unsched = false
is_kernel_state running = false
is_kernel_state fail_retryable = false
is_kernel_state running_ended = false
is_kernel_state _ = true

-- What a joining task waits for: a future, or a list of futures.
abbrev pub Joinable : Option Object → Type 0
Joinable (some (future f)) = Unit
Joinable (some (sequence list xs)) = (fs : List Ref) × (futures_of xs ≡ some fs)
Joinable _ = ⊥

pub record Inv (t : TaskRecord) : Type 0 where
  pub kernel : is_kernel_state t.status ≡ true
  pub resolved : is_final t.status ≡ is_done t.app_fu
  pub waiting : is_waiting t.exec_fu ≡ same t.status launched
  pub joined : t.status ≡ joining → Joinable t.joins

-- A callback of a single joinable future comes from that future, which is done.
abbrev pub Calls : Futures → Option Ref → Option Object → Type 0
Calls look inner (some (future f)) = (inner ≡ some f) × (is_done (look f) ≡ true)
Calls look inner _ = Unit

-- The run raises nothing, and its context has the property.
abbrev pub Ends : (Context → Type 0) → Run → Type 0
Ends Q (returned c) = Q c
Ends Q (faulted f c) = ⊥

-- A record whose current try has just ended, or was never started.
pub record Ended (t : TaskRecord) : Type 0 where
  pub open_future : t.app_fu ≡ unresolved
  pub over : is_waiting t.exec_fu ≡ false
  pub from_state : (t.status ≡ pending) ⊎ (t.status ≡ launched)

abbrev pub Settled : Context → Type 0
Settled d = Inv d.task

pub context_of-Ends : (Q : Context → Type 0) (r : Run) → Ends Q r → Q (context_of r)
context_of-Ends Q (returned c) h = h
context_of-Ends Q (faulted f c) h = absurd h
