-- ===== src/Dataflow/Exec.antt =====
-- `handle_exec_update` of parsl/dataflow/dflow.py: a try of a task has ended.
use parsl.Prelude.{ℕ, ◌+◌, not, none, some, [], leb, if◌then◌else◌}
use parsl.Dataflow.Objects.{
  Error, Object, FutureState, Futures, Result, unresolved, done, ok, err, exception_wrapper,
}
use parsl.Dataflow.States.{same, pending, exec_done, failed, dep_fail, fail_retryable, memo_done}
use parsl.Dataflow.Record.{
  TaskRecord, Action, ◌then◌, pass, raise, modify, internal_inconsistency, update_task_state,
  set_app_fu, launch_if_ready,
}
use parsl.Dataflow.Config.{Config}
use parsl.Dataflow.Joins.{complete_task, add_failure, start_join}

-- `_unwrap_remote_exception_wrapper`: a wrapper as result is an exception of the remote side.
unfoldable pub unwrap_remote_exception_wrapper : Result Object → Result Object
unwrap_remote_exception_wrapper (ok (exception_wrapper e)) = err e
unwrap_remote_exception_wrapper r = r

unfoldable pub settle_success : Futures → Object → Action
unfolding complete_task start_join
settle_success look res ctx =
    (if ctx.task.from_memo
        then complete_task memo_done res
        else if not ctx.task.join
        then complete_task exec_done res
        else start_join look res)
      ctx

-- The cost of a failure, and the exception to report: a retry handler that raises uses up all
-- retries, and its own exception is reported.
unfoldable pub charge : Config → Error → TaskRecord → ℕ × Error
charge cfg e t = elim cfg.retry_handler [
  | none ↦ (t.fail_cost + cfg.failure_cost, e)
  | some handler ↦ elim (handler e t) [
    | ok cost ↦ (t.fail_cost + cost, e)
    | err e' ↦ (cfg.retries + cfg.failure_cost, e')
  ]
]

unfoldable pub route_failure : Config → Error → Action
unfolding update_task_state set_app_fu same
route_failure cfg e ctx =
    (if same ctx.task.status dep_fail
        then set_app_fu (err e)
        else if leb ctx.task.fail_cost cfg.retries
        then (update_task_state fail_retryable
            then modify (λ t. record t { try_id = t.try_id + 1 })
            then update_task_state pending
            then modify (λ t. record t { fail_history = [] }))
        else (update_task_state failed then set_app_fu (err e)))
      ctx

unfoldable pub settle_failure : Config → Error → Action
unfolding charge route_failure
settle_failure cfg e ctx =
    let failed_once = add_failure e ctx.task in
    let charged = charge cfg e failed_once in
    route_failure cfg charged.1 (record ctx { task = record failed_once { fail_cost = charged.0 } })

unfoldable pub relaunch_if_pending : Action
unfolding launch_if_ready same
relaunch_if_pending ctx = (if same ctx.task.status pending then launch_if_ready else pass) ctx

abbrev pub settle : Config → Futures → Result Object → Action
settle cfg look (ok res) = settle_success look res
settle cfg look (err e) = settle_failure cfg e

unfoldable pub handle_exec_update : Config → Futures → FutureState → Action
unfolding unwrap_remote_exception_wrapper settle_success settle_failure relaunch_if_pending
handle_exec_update cfg look unresolved = raise internal_inconsistency
handle_exec_update cfg look (done r) =
    settle cfg look (unwrap_remote_exception_wrapper r) then relaunch_if_pending
