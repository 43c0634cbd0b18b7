-- ===== src/Dataflow/Kernel/Launching.antt =====
-- When the kernel of parsl/dataflow/dflow.py launches a task, and what a failed dependency does.
use parsl.Prelude.{
  ℕ, String, true, false, ◌≡◌, ◌≢◌, refl, sym, ap, ◌∙◌, none, List, ◌++◌, arith, ◌==◌,
  if◌then◌else◌, inl, inr, Bool-cases, All, ==_iff,
}
use parsl.Dataflow.Objects.{
  Error, Failures, no_failures, failure, Object, Futures, unresolved, done, err, dependency_error,
}
use parsl.Dataflow.States.{States, same, pending, launched, dep_fail}
use parsl.Dataflow.Resolver.Laws.{IsLawful, Holds}
use parsl.Dataflow.Record.{
  TaskRecord, Context, Run, ◌then◌, returned, context_of, update_task_state,
}
use parsl.Dataflow.Config.{Config}
use parsl.Dataflow.Joins.{add_failure}
use parsl.Dataflow.Exec.{handle_exec_update, charge, route_failure, relaunch_if_pending}
use parsl.Dataflow.Launch.{
  Answers, launch_if_ready_async, launch_unwrapped, attach, count_deps, unwrap_futures,
  gather_all_deps,
}
use parsl.Dataflow.Failing.{FailsWith, ReadsInputs, values}
use parsl.Dataflow.Kernel.Unwrapped.{unwrap_futures-FailsWith}
use parsl.Dataflow.Kernel.Unwrapping.{unwrap_futures-Held}

routed_dep_fail :
    (cfg : Config) (e : Error) (c : Context)
    → c.task.status ≡ dep_fail
    → c.task.app_fu ≡ unresolved
    → (route_failure cfg e then relaunch_if_pending) c
      ≡ returned (record c { task = record c.task { app_fu = done (err e) } })
unfolding route_failure relaunch_if_pending
routed_dep_fail cfg e c s h = ground arith

-- What handling a dependency failure does to a task that has no result yet.
dep_fail_lem :
    (cfg : Config) (looks : Futures) (e : Error) (c : Context)
    → c.task.status ≡ dep_fail
    → c.task.app_fu ≡ unresolved
    → (let d = attach cfg looks (done (err e)) c in
        (d.task.status ≡ dep_fail)
        × (d.task.app_fu ≡ done (err (charge cfg e (add_failure e c.task)).1))
        × (d.task.try_id ≡ c.task.try_id)
        × (d.pool ≡ c.pool))
unfolding attach handle_exec_update
dep_fail_lem cfg looks e c s h =
    let failed_once = add_failure e c.task in
    let charged = charge cfg e failed_once in
    let ends =
      routed_dep_fail cfg charged.1
        (record c { task = record failed_once { fail_cost = charged.0 } }) s h in
    (
      ap (λ (r : Run). (context_of r).task.status) ends ∙ s,
      ap (λ (r : Run). (context_of r).task.app_fu) ends,
      ap (λ (r : Run). (context_of r).task.try_id) ends,
      ap (λ (r : Run). (context_of r).pool) ends,
    )

pending_lem : (s : States) → s ≡ pending → same s pending ≡ true
unfolding same
pending_lem s h = ground arith

none_left : (n : ℕ) → n ≡ 0 → (n == 0) ≡ true
none_left n h = ground arith

module _ (cfg : Config) (looks : Futures) (answers : Answers) (c : Context) where
  abbrev unwrapped : List Object × List (String × Object) × Failures
  unwrapped = unwrap_futures cfg.dependency_resolver looks c.task.args c.task.kwargs

  abbrev ready : Context
  ready = record c { task = record c.task { args = unwrapped.0; kwargs = unwrapped.1 } }

  launch_eq :
      c.task.status ≡ pending
      → count_deps looks c.task.depends ≡ 0
      → launch_if_ready_async cfg looks answers c
        ≡ launch_unwrapped cfg looks answers unwrapped.2 ready
  unfolding launch_if_ready_async
  launch_eq s z = rw (pending_lem c.task.status s, none_left _ z)

  failed_deps :
      (e : Error) (o : Object) (rest : Failures)
      → c.task.status ≡ pending
      → c.task.app_fu ≡ unresolved
      → count_deps looks c.task.depends ≡ 0
      → unwrapped.2 ≡ failure e o rest
      → (let d = launch_if_ready_async cfg looks answers c in
          let error = dependency_error (failure e o rest) c.task.id in
          (d.task.status ≡ dep_fail)
          × (d.task.app_fu
              ≡ done (
                  err
                    (charge cfg error
                      (add_failure error (record ready.task { status = dep_fail }))).1))
          × (d.task.try_id ≡ c.task.try_id)
          × (d.pool ≡ c.pool))
  unfolding update_task_state
  failed_deps e o rest s h z f =
      rw (launch_eq s z, f)
        (dep_fail_lem cfg looks (dependency_error (failure e o rest) c.task.id)
          (context_of (update_task_state dep_fail ready)) refl h)

  idle_eq :
      (count_deps looks c.task.depends == 0) ≡ false → launch_if_ready_async cfg looks answers c ≡ c
  unfolding launch_if_ready_async
  idle_eq z = elim (Bool-cases (same c.task.status pending)) [ inl e ↦ rw (e, z) | inr e ↦ rw e ]

charge_plain :
    (cfg : Config) (e : Error) (t : TaskRecord) → cfg.retry_handler ≡ none → (charge cfg e t).1 ≡ e
unfolding charge
charge_plain cfg e t plain = rw plain

-- A pending task with no dependency outstanding of which an argument, a keyword argument or one of
-- the `inputs` does not unwrap, with no retry handler: it is in state `dep_fail`, its future holds
-- the DependencyError with every exception that unwrapping them raises, in this order, each with
-- the object that raised it, and it is not tried again, whatever the executor would answer.
pub dependency_failure :
    (cfg : Config) (looks : Futures) (answers : Answers) (c : Context) (inputs : List Object)
    (e : Error) (o : Object) (rest : Failures)
    → cfg.retry_handler ≡ none
    → c.task.status ≡ pending
    → c.task.app_fu ≡ unresolved
    → count_deps looks c.task.depends ≡ 0
    → ReadsInputs (cfg.dependency_resolver.traverse_to_unwrap looks) c.task.kwargs inputs
    → FailsWith
        (λ x r. cfg.dependency_resolver.traverse_to_unwrap looks x ≡ r)
        (λ x. x)
        (c.task.args ++ (values c.task.kwargs ++ inputs))
        (failure e o rest)
    → (let d = launch_if_ready_async cfg looks answers c in
        (d.task.status ≡ dep_fail)
        × (d.task.app_fu ≡ done (err (dependency_error (failure e o rest) c.task.id)))
        × (d.task.try_id ≡ c.task.try_id)
        × (d.pool ≡ c.pool))
dependency_failure cfg looks answers c inputs e o rest plain s h z reads fails =
    let all_failures =
      unwrap_futures-FailsWith cfg.dependency_resolver looks c.task.args c.task.kwargs inputs
        (failure e o rest) reads fails in
    let (status, outcome, tries, pool) =
      failed_deps cfg looks answers c e o rest s h z all_failures in
    (status, outcome ∙ ap (λ (x : Error). done (err x)) (charge_plain cfg _ _ plain), tries, pool)

pending_ne_launched : pending ≢ launched
pending_ne_launched e = cc

dep_fail_ne_launched : dep_fail ≢ launched
dep_fail_ne_launched e = cc

launched_unwraps :
    (cfg : Config) (looks : Futures) (answers : Answers) (c : Context) (fs : Failures)
    → c.task.status ≡ pending
    → c.task.app_fu ≡ unresolved
    → count_deps looks c.task.depends ≡ 0
    → (launch_if_ready_async cfg looks answers c).task.status ≡ launched
    → (unwrap_futures cfg.dependency_resolver looks c.task.args c.task.kwargs).2 ≡ fs
    → fs ≡ no_failures
launched_unwraps cfg looks answers c no_failures s h z l f = refl
launched_unwraps cfg looks answers c (failure e o rest) s h z l f =
    absurd (dep_fail_ne_launched (sym (failed_deps cfg looks answers c e o rest s h z f).0 ∙ l))

-- A launch takes a pending task to `launched` only when no dependency is outstanding and every
-- future that the resolver gathers from its arguments, its keyword arguments and its `inputs`
-- holds a value.
pub launched_has_values :
    (cfg : Config) (looks : Futures) (answers : Answers) (c : Context)
    → IsLawful cfg.dependency_resolver
    → c.task.status ≡ pending
    → c.task.app_fu ≡ unresolved
    → (launch_if_ready_async cfg looks answers c).task.status ≡ launched
    → (count_deps looks c.task.depends ≡ 0)
      × All
          (λ f. Holds (looks f))
          (gather_all_deps cfg.dependency_resolver c.task.args c.task.kwargs)
launched_has_values cfg looks answers c lawful s h l =
    elim (Bool-cases (count_deps looks c.task.depends == 0)) [
      | inr z ↦ absurd (
          pending_ne_launched
            (sym s ∙ sym (ap (λ (d : Context). d.task.status) (idle_eq cfg looks answers c z)) ∙ l))
      | inl z ↦
          let none_out = (==_iff _ 0).0 z in
          (
            none_out,
            unwrap_futures-Held cfg.dependency_resolver lawful looks c.task.args c.task.kwargs
                (launched_unwraps cfg looks answers c _ s h none_out l refl),
          )
    ]
