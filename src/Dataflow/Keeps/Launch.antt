-- ===== src/Dataflow/Keeps/Launch.antt =====
-- What a launch (parsl/dataflow/dflow.py) leaves alone.
use parsl.Prelude.{Bool, true, false, refl, Option, none, some, ◌==◌, Bool-cases, inl, inr}
use parsl.Dataflow.Objects.{
  Error, Failures, no_failures, failure, Object, FutureState, Futures, Result, unresolved, done, ok,
  err,
}
use parsl.Dataflow.States.{same, pending, launched, dep_fail}
use parsl.Dataflow.Record.{Context}
use parsl.Dataflow.Config.{Config}
use parsl.Dataflow.Exec.{settle_failure}
use parsl.Dataflow.Launch.{
  Answers, launch_if_ready_async, launch_unwrapped, attach, launch_task, try_future, remember,
  submit_to, is_executor, count_deps, unwrap_futures,
}
use parsl.Dataflow.Keeps.{IsKept, Keeps}
use parsl.Dataflow.Keeps.Exec.{handle_exec_update-Keeps}

module _ {P : Context → Type 0} (kept : IsKept P) (cfg : Config)
    (failing : (e : Error) → Keeps P (settle_failure cfg e))
    (remembered : (fut : FutureState) (c : Context) → P c → P (remember fut c)) where
  attach-keeps :
      (look : Futures) (fut : FutureState) (c : Context) → P c → P (attach cfg look fut c)
  unfolding attach
  attach-keeps look unresolved c p = remembered unresolved c p
  attach-keeps look (done r) c p =
      remembered (done r) _ ((handle_exec_update-Keeps kept cfg look (done r) failing).at c p)

  submit_to-keeps : (answer : Result FutureState) (c : Context) → P c → P (submit_to answer c).1
  submit_to-keeps (err e) c p = p
  submit_to-keeps (ok fut) c p = kept.state launched c p

  from_memo-keeps :
      (b : Bool) (c : Context) → P c → P (record c { task = record c.task { from_memo = b } })
  from_memo-keeps b c p =
      kept.edit (record c.task { from_memo = b }) c
        (record { id = refl; status = refl; depends = refl; exec_fu = refl })
        (record { try_id = refl; fail_cost = refl }) p

  launch_task-keeps :
      (memo : Result (Option (Result Object))) (answer : Result FutureState) (c : Context)
      → P c
      → P (launch_task cfg (record { check_memo = memo; submit = answer }) c).1
  unfolding launch_task
  launch_task-keeps (err e) answer c p = p
  launch_task-keeps (ok (some memo)) answer c p = from_memo-keeps true c p
  launch_task-keeps (ok none) answer c p =
      elim (Bool-cases (is_executor c.task.executor cfg.executors)) [
        | inl e ↦ rw e (submit_to-keeps answer _ (from_memo-keeps false c p))
        | inr e ↦ rw e (from_memo-keeps false c p)
      ]

  launch_unwrapped-keeps :
      (look : Futures) (answers : Answers) (fs : Failures) (c : Context)
      → P c
      → P (launch_unwrapped cfg look answers fs c)
  launch_unwrapped-keeps look answers no_failures c p =
      let launched_task = launch_task cfg answers c in
      attach-keeps look (try_future launched_task.0) launched_task.1
        (launch_task-keeps answers.check_memo answers.submit c p)
  launch_unwrapped-keeps look answers (failure e o rest) c p =
      attach-keeps look _ _ (kept.state dep_fail c p)

  pub launch_if_ready_async-keeps :
      (look : Futures) (answers : Answers) (c : Context)
      → P c
      → P (launch_if_ready_async cfg look answers c)
  unfolding launch_if_ready_async
  launch_if_ready_async-keeps look answers c p =
      let (args, kwargs, failures) =
        unwrap_futures cfg.dependency_resolver look c.task.args c.task.kwargs in
      let unwrapped = record c.task { args = args; kwargs = kwargs } in
      let start =
        launch_unwrapped-keeps look answers failures (record c { task = unwrapped })
          (kept.edit unwrapped c
            (record { id = refl; status = refl; depends = refl; exec_fu = refl })
            (record { try_id = refl; fail_cost = refl }) p) in
      elim (Bool-cases (same c.task.status pending)) [
        | inr e ↦ rw e p
        | inl e ↦ elim (Bool-cases (count_deps look c.task.depends == 0)) [
          | inr z ↦ rw (e, z) p
          | inl z ↦ rw (e, z) start
        ]
      ]
