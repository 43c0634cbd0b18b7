-- ===== src/Dataflow/Invariant/Launch.antt =====
-- A launch (parsl/dataflow/dflow.py) keeps the invariant, whatever outside code answers.
use parsl.Prelude.{
  true, false, ◌≡◌, refl, sym, inl, inr, Option, none, some, arith, Bool-cases, ◌==◌,
}
use parsl.Dataflow.Objects.{
  Failures, no_failures, failure, Object, FutureState, Futures, Result, unresolved, done, ok, err,
  invalid_executor, dependency_error,
}
use parsl.Dataflow.States.{same, same_eq, is_final, pending, launched, dep_fail}
use parsl.Dataflow.Record.{TaskRecord, Context, context_of, update_task_state}
use parsl.Dataflow.Config.{Config}
use parsl.Dataflow.Exec.{handle_exec_update}
use parsl.Dataflow.Launch.{
  Answers, submit_to, is_executor, launch_if_ready_async, launch_unwrapped, attach, launch_task,
  try_future, remember, count_deps, unwrap_futures,
}
use parsl.Dataflow.Keeps.{IsKept, IsKeptByTries}
use parsl.Dataflow.Keeps.Exec.{settle_failure-Keeps, handle_exec_update-Keeps}
use parsl.Dataflow.Invariant.{is_waiting, Inv, Settled, context_of-Ends}
use parsl.Dataflow.Invariant.Exec.{handle_exec_update-Inv}

waiting-IsKept : IsKept (λ c. is_waiting c.task.exec_fu ≡ false)
unfolding update_task_state
waiting-IsKept = record {
  state = λ s c p. p;
  resolve = λ x c p. p;
  edit = λ t c core tries p. rw core.exec_fu p;
  queue = λ l c p. p;
}

waiting-IsKeptByTries : IsKeptByTries (λ c. is_waiting c.task.exec_fu ≡ false)
waiting-IsKeptByTries = record { count = λ t c core p. rw core.exec_fu p }

remember-Inv :
    (r : Result Object) (c : Context)
    → Inv c.task
    → is_waiting c.task.exec_fu ≡ false
    → Inv (remember (done r) c).task
remember-Inv r c v w = record {
  kernel = v.kernel;
  resolved = v.resolved;
  waiting = rw (← v.waiting) (sym w);
  joined = v.joined;
}

attach_done-Inv :
    (cfg : Config) (look : Futures) (r : Result Object) (c : Context)
    → c.task.app_fu ≡ unresolved
    → is_waiting c.task.exec_fu ≡ false
    → Inv (attach cfg look (done r) c).task
unfolding attach
attach_done-Inv cfg look r c h w =
    let run = handle_exec_update cfg look (done r) c in
    remember-Inv r (context_of run)
      (context_of-Ends Settled run (handle_exec_update-Inv cfg look r c h w))
      ((handle_exec_update-Keeps waiting-IsKept cfg look (done r)
          (settle_failure-Keeps waiting-IsKept waiting-IsKeptByTries cfg)).at
        c w)

attach_launched-Inv :
    (cfg : Config) (look : Futures) (fut : FutureState) (c : Context)
    → c.task.app_fu ≡ unresolved
    → is_waiting c.task.exec_fu ≡ false
    → c.task.status ≡ launched
    → Inv (attach cfg look fut c).task
attach_launched-Inv cfg look (done r) c h w s = attach_done-Inv cfg look r c h w
attach_launched-Inv cfg look unresolved c h w s = unfold attach same is_final in ground arith

submit_to-Inv :
    (cfg : Config) (look : Futures) (answer : Result FutureState) (c : Context)
    → c.task.app_fu ≡ unresolved
    → is_waiting c.task.exec_fu ≡ false
    → (let (r, after) = submit_to answer c in Inv (attach cfg look (try_future r) after).task)
submit_to-Inv cfg look (err e) c h w = attach_done-Inv cfg look (err e) c h w
submit_to-Inv cfg look (ok fut) c h w =
    unfold update_task_state in
    attach_launched-Inv cfg look fut (context_of (update_task_state launched c)) h w refl

launch_task-Inv :
    (cfg : Config) (look : Futures) (memo : Result (Option (Result Object)))
    (answer : Result FutureState) (c : Context)
    → c.task.app_fu ≡ unresolved
    → is_waiting c.task.exec_fu ≡ false
    → (let (r, after) = launch_task cfg (record { check_memo = memo; submit = answer }) c in
        Inv (attach cfg look (try_future r) after).task)
launch_task-Inv cfg look (err e) answer c h w =
    unfold launch_task in attach_done-Inv cfg look (err e) c h w
launch_task-Inv cfg look (ok (some memo)) answer c h w =
    unfold launch_task in
    attach_done-Inv cfg look memo (record c { task = record c.task { from_memo = true } }) h w
launch_task-Inv cfg look (ok none) answer c h w =
    let fresh = record c { task = record c.task { from_memo = false } } in
    elim (Bool-cases (is_executor c.task.executor cfg.executors)) [
      | inl e ↦ unfold launch_task in rw e (submit_to-Inv cfg look answer fresh h w)
      | inr e ↦
          unfold launch_task in
          rw e (attach_done-Inv cfg look (err (invalid_executor c.task.id)) fresh h w)
    ]

launch_unwrapped-Inv :
    (cfg : Config) (look : Futures) (answers : Answers) (fs : Failures) (c : Context)
    → c.task.app_fu ≡ unresolved
    → is_waiting c.task.exec_fu ≡ false
    → Inv (launch_unwrapped cfg look answers fs c).task
launch_unwrapped-Inv cfg look answers no_failures c h w =
    launch_task-Inv cfg look answers.check_memo answers.submit c h w
launch_unwrapped-Inv cfg look answers (failure e o rest) c h w =
    unfold update_task_state in
    attach_done-Inv cfg look (err (dependency_error (failure e o rest) c.task.id))
      (context_of (update_task_state dep_fail c)) h w

open_of_pending :
    {t : TaskRecord}
    → Inv t
    → t.status ≡ pending
    → (t.app_fu ≡ unresolved) × (is_waiting t.exec_fu ≡ false)
unfolding is_final same
open_of_pending v s = ground arith

-- Whatever the memoizer and the executor answer, a launch leaves the invariant.
pub launch_if_ready_async-Inv :
    (cfg : Config) (look : Futures) (answers : Answers) (c : Context)
    → Inv c.task
    → Inv (launch_if_ready_async cfg look answers c).task
launch_if_ready_async-Inv cfg look answers c v =
    let (args, kwargs, failures) =
      unwrap_futures cfg.dependency_resolver look c.task.args c.task.kwargs in
    let ready = record c { task = record c.task { args = args; kwargs = kwargs } } in
    elim (Bool-cases (same c.task.status pending)) [
      | inr e ↦ unfold launch_if_ready_async in rw e v
      | inl e ↦
          let (h, w) = open_of_pending v (same_eq _ _ e) in
          elim (Bool-cases (count_deps look c.task.depends == 0)) [
            | inr z ↦ unfold launch_if_ready_async in rw (e, z) v
            | inl z ↦
                unfold launch_if_ready_async in
                rw (e, z) (launch_unwrapped-Inv cfg look answers failures ready h w)
          ]
    ]
