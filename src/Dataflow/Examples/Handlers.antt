-- ===== src/Dataflow/Examples/Handlers.antt =====
-- Runs of single handlers of parsl/dataflow/dflow.py: launches and joins.
use parsl.Prelude.{
  ℕ, zero, suc, false, true, ◌≡◌, refl, none, some, [], ◌∷◌, All, List, String, inl, inr, ◌↔◌,
  if◌then◌else◌,
}
use parsl.Dataflow.Objects.{
  Futures, Items, Object, Failures, no_failures, failure, Ref, app_future, unresolved, done, ok,
  err, raised, atom, future, sequence, list, nil, cons, from_list, dependency_error, join_error,
}
use parsl.Dataflow.States.{same, pending, joining, exec_done, failed, dep_fail}
use parsl.Dataflow.Resolver.{shallow_dependency_resolver, deep_dependency_resolver}
use parsl.Dataflow.Resolver.Laws.{
  Holds, Returns, deep_unwraps_iff, shallow_dependency_resolver-IsLawful,
}
use parsl.Dataflow.Record.{Context, context_of}
use parsl.Dataflow.Joins.{handle_join_update, futures_of}
use parsl.Dataflow.Launch.{launch_if_ready_async, count_deps, gather_all_deps, elements}
use parsl.Dataflow.Kernel.{new_task}
use parsl.Dataflow.Kernel.Launching.{launched_has_values, dependency_failure}
use parsl.Dataflow.Kernel.JoinResults.{join_returns_values, join_fails}
use parsl.Dataflow.Examples.{cfg, accepted}

-- The futures of a kernel whose task 0 has the value 5, whose task 1 raised, and where no other
-- future is done.
abbrev two_done : Futures
two_done (app_future zero) = done (ok (atom 5))
two_done (app_future (suc zero)) = done (err (raised 3))
two_done _ = unresolved

abbrev inputs : Ref → List (String × Object)
inputs f = ("inputs", sequence list (cons (future f) nil)) ∷ []

-- A task that takes the future of task 0, and one that takes the future of task 1, as argument
-- and among the `inputs`.
abbrev pending_on : Ref → Context
pending_on f = record {
  counts = λ s. if same s pending then 1 else 0;
  pool = [];
  task = record (new_task cfg 2 (future f ∷ []) (inputs f) "htex" false) {
    status = pending;
    depends = f ∷ f ∷ [];
  };
}

launched_has_values_example :
    (count_deps two_done (app_future 0 ∷ app_future 0 ∷ []) ≡ 0)
    × All (λ f. Holds (two_done f)) (app_future 0 ∷ app_future 0 ∷ [])
unfolding launch_if_ready_async new_task gather_all_deps same shallow_dependency_resolver cfg
launched_has_values_example =
    launched_has_values cfg two_done accepted (pending_on (app_future 0))
      shallow_dependency_resolver-IsLawful refl refl refl

abbrev two_failures : Failures
two_failures =
    failure (raised 3) (future (app_future 1))
      (failure (raised 3) (future (app_future 1)) no_failures)

dependency_failure_example :
    (let d = launch_if_ready_async cfg two_done accepted (pending_on (app_future 1)) in
      (d.task.status ≡ dep_fail)
      × (d.task.app_fu ≡ done (err (dependency_error two_failures 2)))
      × (d.task.try_id ≡ 0)
      × (d.pool ≡ []))
unfolding new_task count_deps elements shallow_dependency_resolver cfg
dependency_failure_example =
    let o = future (app_future 1) in
    dependency_failure cfg two_done accepted (pending_on (app_future 1)) (o ∷ []) (raised 3) o
      (failure (raised 3) o no_failures) refl refl refl refl
      (inl (refl, inl (sequence list (cons o nil), refl, refl)))
      (inr (
        raised 3,
        failure (raised 3) o no_failures,
        refl,
        refl,
        inl (sequence list (cons o nil), refl, inr (raised 3, no_failures, refl, refl, refl)),
      ))

-- A task that joins on a list of futures.
abbrev joining_on : Items → Context
joining_on xs = record {
  counts = λ s. if same s joining then 1 else 0;
  pool = [];
  task = record (new_task cfg 4 [] [] "_parsl_internal" true) {
    status = joining;
    joins = some (sequence list xs);
  };
}

abbrev item : ℕ → Items → Items
item n xs = cons (future (app_future n)) xs

join_returns_values_example :
    (let d = context_of (handle_join_update two_done none (joining_on (item 0 nil))) in
      (d.task.status ≡ exec_done)
      × (d.task.app_fu ≡ done (ok (sequence list (from_list (atom 5 ∷ []))))))
unfolding new_task futures_of cfg
join_returns_values_example =
    join_returns_values two_done none (item 0 nil) (app_future 0 ∷ []) (atom 5 ∷ [])
      (joining_on (item 0 nil)) refl refl refl refl (refl, tt)

join_fails_example :
    (let d = context_of (handle_join_update two_done none (joining_on (item 0 (item 1 nil)))) in
      (d.task.status ≡ failed)
      × (d.task.app_fu
          ≡ done (err (join_error (failure (raised 3) (future (app_future 1)) no_failures) 4)))
      × (d.task.fail_count ≡ 1)
      × (d.task.fail_cost ≡ 0))
unfolding new_task futures_of cfg
join_fails_example =
    join_fails two_done none (item 0 (item 1 nil)) (app_future 0 ∷ app_future 1 ∷ []) (raised 3)
      (future (app_future 1)) no_failures (joining_on (item 0 (item 1 nil))) refl refl refl refl
      (inl (atom 5, refl, inr (raised 3, no_failures, refl, refl, refl)))

deep_unwraps_iff_example :
    All
      (λ f. Holds (two_done f))
      (deep_dependency_resolver.traverse_to_gather (sequence list (item 0 (item 1 nil))))
    ↔ Returns
        (deep_dependency_resolver.traverse_to_unwrap two_done (sequence list (item 0 (item 1 nil))))
deep_unwraps_iff_example = deep_unwraps_iff two_done (sequence list (item 0 (item 1 nil)))
