-- ===== src/Dataflow/Examples.antt =====
-- Runs of the models of parsl/dataflow: one task that fails once, is retried and returns.
mod Handlers
use parsl.Prelude.{
  ℕ, zero, suc, ◌≤◌, false, true, ◌≡◌, refl, none, some, List, [], ◌∷◌, get_elem?, All, ◌↔◌,
  if◌then◌else◌, ◌*◌, ◌++◌,
}
use parsl.Dataflow.Objects.{
  Futures, Items, no_failures, failure, Ref, app_future, unresolved, done, ok, err, raised, atom,
  future, is_done, sequence, list, nil, cons, from_list, dependency_error, join_error,
}
use parsl.Dataflow.States.{same, is_final, pending, launched, joining, exec_done, failed, dep_fail}
use parsl.Dataflow.Resolver.{shallow_dependency_resolver, deep_dependency_resolver}
use parsl.Dataflow.Resolver.Laws.{
  Holds, Returns, deep_unwraps_iff, shallow_dependency_resolver-IsLawful,
}
use parsl.Dataflow.Record.{TaskRecord, Context, context_of, returned}
use parsl.Dataflow.Config.{Config}
use parsl.Dataflow.Joins.{handle_join_update, futures_of, all_done, exceptions_of}
use parsl.Dataflow.Exec.{handle_exec_update}
use parsl.Dataflow.Launch.{
  Answers, launch_if_ready_async, count_deps, gather_list, gather_kwargs, unwrap_futures,
}
use parsl.Dataflow.Invariant.{is_waiting, is_kernel_state}
use parsl.Dataflow.Kernel.{
  Kernel, empty, look, context, put_back, new_task, add_task, launched_context, ended_context,
  submit, Step, submitted, launch, try_ended, Reach, start, next,
}
use parsl.Dataflow.Kernel.Counting.{count_status}
use parsl.Dataflow.Kernel.Outcomes.{final_absorbs}
use parsl.Dataflow.Kernel.Tallies.{counts_exact}
use parsl.Dataflow.Kernel.Tries.{retries_bounded, failed_try, handler_returns}
use parsl.Dataflow.Kernel.Launching.{launched_has_values, dependency_failure}
use parsl.Dataflow.Kernel.JoinResults.{join_returns_values, join_fails}

abbrev cfg : Config
unfolding shallow_dependency_resolver
cfg = record {
  retries = 1;
  failure_cost = 1;
  retry_handler = none;
  executors = "htex" ∷ [];
  dependency_resolver = shallow_dependency_resolver;
}

-- The executor takes the task, and its try runs.
abbrev accepted : Answers
accepted = record { check_memo = ok none; submit = ok unresolved }

abbrev task_of : List TaskRecord → TaskRecord
unfolding new_task
task_of [] = new_task cfg 0 [] [] "htex" false
task_of (t ∷ ts) = t

abbrev task_in : Kernel → TaskRecord
task_in k = task_of k.tasks

abbrev submitted_state : Kernel
unfolding add_task
submitted_state = add_task cfg (atom 7 ∷ []) [] "htex" false empty

abbrev launched_state : Kernel
unfolding launch_if_ready_async cfg
launched_state =
    put_back submitted_state 0
      (launched_context cfg submitted_state [] (task_in submitted_state) accepted)

abbrev retried_state : Kernel
unfolding handle_exec_update
retried_state =
    put_back launched_state 0
      (ended_context cfg launched_state (task_in launched_state) (err (raised 3)))

abbrev relaunched_state : Kernel
unfolding launch_if_ready_async cfg
relaunched_state =
    put_back retried_state 0
      (launched_context cfg retried_state [] (task_in retried_state) accepted)

abbrev finished_state : Kernel
unfolding handle_exec_update
finished_state =
    put_back relaunched_state 0
      (ended_context cfg relaunched_state (task_in relaunched_state) (ok (atom 9)))

launched_reached : Reach cfg launched_state
unfolding submit add_task launch_if_ready_async cfg
launched_reached =
    next (next start (submitted empty submitted_state (atom 7 ∷ []) [] "htex" false refl))
      (launch submitted_state 0 [] (task_in submitted_state) accepted refl refl)

finished_reached : Reach cfg finished_state
unfolding launch_if_ready_async handle_exec_update add_task cfg
finished_reached =
    next
      (next
        (next launched_reached
          (try_ended launched_state 0 (task_in launched_state) (err (raised 3)) refl refl))
        (launch retried_state 0 [] (task_in retried_state) accepted refl refl))
      (try_ended relaunched_state 0 (task_in relaunched_state) (ok (atom 9)) refl refl)

finished_once_retried : (task_in finished_state).try_id ≡ 1
unfolding launch_if_ready_async handle_exec_update add_task cfg
finished_once_retried = refl

final_absorbs_example : get_elem? finished_state.tasks 0 ≡ some (task_in finished_state)
unfolding launch_if_ready_async handle_exec_update add_task is_final cfg
final_absorbs_example =
    final_absorbs cfg finished_state
      (record finished_state { pool = finished_state.pool ++ 0 ∷ [] }) 0 (task_in finished_state)
      finished_reached (Step.wake finished_state 0) refl refl

counts_exact_example : finished_state.counts exec_done ≡ count_status exec_done finished_state.tasks
counts_exact_example = counts_exact cfg finished_state exec_done finished_reached

retries_bounded_example : (task_in finished_state).try_id * 1 ≤ 1
unfolding launch_if_ready_async handle_exec_update add_task cfg
retries_bounded_example =
    retries_bounded cfg finished_state 0 (task_in finished_state) refl finished_reached refl

handler_returns_example :
    (d : Context) × (handle_exec_update cfg (look launched_state) (done (ok (atom 9))) (
        context launched_state
          (record (task_in launched_state) { exec_fu = some (done (ok (atom 9))) }))
      ≡ returned d)
unfolding launch_if_ready_async add_task cfg
handler_returns_example =
    handler_returns cfg launched_state 0 (task_in launched_state) (ok (atom 9)) launched_reached
      refl refl

-- The context of the task while its first try runs.
abbrev running_context : Context
running_context = context launched_state (task_in launched_state)

failed_try_example :
    (let d =
        context_of
          (handle_exec_update cfg (look launched_state) (done (err (raised 3))) running_context) in
      (d.task.fail_cost ≡ 1)
      × (d.task.status ≡ pending)
      × (d.task.try_id ≡ 1)
      × (d.task.app_fu ≡ unresolved)
      × (d.pool ≡ 0 ∷ []))
unfolding launch_if_ready_async add_task cfg
failed_try_example = failed_try cfg (look launched_state) (raised 3) running_context refl refl refl
