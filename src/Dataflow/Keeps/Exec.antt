-- ===== src/Dataflow/Keeps/Exec.antt =====
-- What the handler of the end of a try (`handle_exec_update` of parsl/dataflow/dflow.py) leaves
-- alone.
use parsl.Prelude.{◌+◌, refl, [], leb, if◌then◌else◌, not}
use parsl.Dataflow.Objects.{Error, Object, FutureState, Futures, Result, unresolved, done, ok, err}
use parsl.Dataflow.States.{same, dep_fail, pending, fail_retryable, exec_done, memo_done}
use parsl.Dataflow.Record.{TaskRecord, Context, ◌then◌, modify, update_task_state, launch_if_ready}
use parsl.Dataflow.Config.{Config}
use parsl.Dataflow.Exec.{
  handle_exec_update, settle_success, settle_failure, route_failure, relaunch_if_pending,
  unwrap_remote_exception_wrapper, settle,
}
use parsl.Dataflow.Keeps.{
  SameCore, IsKept, IsKeptByTries, Keeps, pass-Keeps, raise-Keeps, then-Keeps, choose-Keeps,
  state-Keeps, set_app_fu-Keeps, complete_task-Keeps, fail_with-Keeps, start_join-Keeps,
}

module _ {P : Context → Type 0} (kept : IsKept P) where
  settle_success-Keeps : (look : Futures) (o : Object) → Keeps P (settle_success look o)
  unfolding settle_success
  settle_success-Keeps look o = record {
    at = λ c p.
        (choose-Keeps c.task.from_memo (complete_task-Keeps kept memo_done o) (
            choose-Keeps (not c.task.join) (complete_task-Keeps kept exec_done o)
              (start_join-Keeps kept look o))).at
          c p;
  }

  relaunch-Keeps : Keeps P relaunch_if_pending
  unfolding relaunch_if_pending launch_if_ready
  relaunch-Keeps = record {
    at = λ c p.
        (choose-Keeps (same c.task.status pending) (record { at = λ d q. kept.queue _ d q })
            pass-Keeps).at
          c p;
  }

  settle-Keeps :
      (cfg : Config) (look : Futures)
      → ((e : Error) → Keeps P (settle_failure cfg e))
      → (r : Result Object) → Keeps P (settle cfg look r)
  settle-Keeps cfg look failing (ok v) = settle_success-Keeps look v
  settle-Keeps cfg look failing (err e) = failing e

  -- With what a failed try does given apart.
  pub handle_exec_update-Keeps :
      (cfg : Config) (look : Futures) (s : FutureState)
      → ((e : Error) → Keeps P (settle_failure cfg e))
      → Keeps P (handle_exec_update cfg look s)
  unfolding handle_exec_update
  handle_exec_update-Keeps cfg look unresolved failing = raise-Keeps _
  handle_exec_update-Keeps cfg look (done r) failing =
      then-Keeps (settle-Keeps cfg look failing (unwrap_remote_exception_wrapper r)) relaunch-Keeps

module _ {P : Context → Type 0} (kept : IsKept P) (by_tries : IsKeptByTries P) where
  count-Keeps :
      (f : TaskRecord → TaskRecord) → ((t : TaskRecord) → SameCore (f t) t) → Keeps P (modify f)
  count-Keeps f core = record { at = λ c p. by_tries.count (f c.task) c (core c.task) p }

  retry-Keeps : Keeps P (
      update_task_state fail_retryable
      then modify (λ t. record t { try_id = t.try_id + 1 })
      then update_task_state pending
      then modify (λ t. record t { fail_history = [] }))
  retry-Keeps =
      then-Keeps
        (then-Keeps
          (then-Keeps (state-Keeps kept fail_retryable) (
            count-Keeps _
              (λ t. record { id = refl; status = refl; depends = refl; exec_fu = refl })))
          (state-Keeps kept pending))
        (count-Keeps _ (λ t. record { id = refl; status = refl; depends = refl; exec_fu = refl }))

  route_failure-Keeps : (cfg : Config) (e : Error) → Keeps P (route_failure cfg e)
  unfolding route_failure
  route_failure-Keeps cfg e = record {
    at = λ c p.
        (choose-Keeps (same c.task.status dep_fail) (set_app_fu-Keeps kept (err e)) (
            choose-Keeps (leb c.task.fail_cost cfg.retries) retry-Keeps
              (fail_with-Keeps kept e))).at
          c p;
  }

  pub settle_failure-Keeps : (cfg : Config) (e : Error) → Keeps P (settle_failure cfg e)
  unfolding settle_failure
  settle_failure-Keeps cfg e = record {
    at = λ c p. (route_failure-Keeps cfg _).at _ (
        by_tries.count _ c (record { id = refl; status = refl; depends = refl; exec_fu = refl }) p);
  }
