-- ===== src/Dataflow/Kernel/Tries.antt =====
-- Retries and failures of tries in parsl/dataflow/dflow.py.
use parsl.Prelude.{
  ℕ, ◌+◌, ◌*◌, ◌≤◌, ◌≡◌, refl, ap, subst, none, some, [], ◌∷◌, ◌++◌, get_elem?, arith, leb,
  if◌then◌else◌, inl, inr, Bool-cases, leb→le,
}
use parsl.Dataflow.Objects.{Error, Object, Futures, Result, unresolved, done, err}
use parsl.Dataflow.States.{same, pending, launched, failed, dep_fail}
use parsl.Dataflow.Record.{
  TaskRecord, Context, Run, ◌then◌, returned, faulted, context_of, update_task_state,
}
use parsl.Dataflow.Config.{Config}
use parsl.Dataflow.Joins.{add_failure}
use parsl.Dataflow.Exec.{
  handle_exec_update, settle_failure, charge, route_failure, relaunch_if_pending,
}
use parsl.Dataflow.Keeps.{
  IsKept, Keeps, handle_join_update-Keeps, set_app_fu-Keeps, fail_with-Keeps,
}
use parsl.Dataflow.Keeps.Exec.{handle_exec_update-Keeps}
use parsl.Dataflow.Keeps.Launch.{launch_if_ready_async-keeps}
use parsl.Dataflow.Invariant.{Ends, Settled}
use parsl.Dataflow.Invariant.Exec.{handle_exec_update-Inv}
use parsl.Dataflow.Kernel.{
  Kernel, look, context, add_task, Step, submitted, launch, try_ended, joined, wake, other_resolved,
  cleanup, Reach, start, next,
}
use parsl.Dataflow.Kernel.Reachable.{
  submit-eq, open_of_waiting, Each, Each-set, Each-append, Reach-Inv,
}

-- The tries so far have been paid for, and paid for within the limit on retries.
record IsPaid (cfg : Config) (t : TaskRecord) : Type 0 where
  paid : t.try_id * cfg.failure_cost ≤ t.fail_cost
  allowed : t.try_id * cfg.failure_cost ≤ cfg.retries

module _ (cfg : Config) (plain : cfg.retry_handler ≡ none) where
  IsPaid-IsKept : IsKept (λ c. IsPaid cfg c.task)
  unfolding update_task_state
  IsPaid-IsKept = record {
    state = λ s c p. record { paid = p.paid; allowed = p.allowed };
    resolve = λ x c p. record { paid = p.paid; allowed = p.allowed };
    edit = λ t c core tries p. record {
      paid = rw (tries.try_id, tries.fail_cost) p.paid;
      allowed = rw tries.try_id p.allowed;
    };
    queue = λ l c p. p;
  }

  charge_plain : (e : Error) (t : TaskRecord) → charge cfg e t ≡ (t.fail_cost + cfg.failure_cost, e)
  unfolding charge
  charge_plain e t = rw plain

  route_failure-IsPaid :
      (e : Error) (c : Context)
      → c.task.try_id * cfg.failure_cost + cfg.failure_cost ≤ c.task.fail_cost
      → c.task.try_id * cfg.failure_cost ≤ cfg.retries
      → IsPaid cfg (context_of (route_failure cfg e c)).task
  route_failure-IsPaid e c p q =
      let now : IsPaid cfg c.task = record { paid = omega arith; allowed = q } in
      elim (Bool-cases (same c.task.status dep_fail)) [
        | inl d ↦ unfold route_failure in rw d ((set_app_fu-Keeps IsPaid-IsKept (err e)).at c now)
        | inr d ↦ elim (Bool-cases (leb c.task.fail_cost cfg.retries)) [
          | inl l ↦
              let fits = leb→le _ _ l in
              unfold route_failure update_task_state in
              rw (d, l) (record { paid = omega arith; allowed = omega arith })
          | inr l ↦ unfold route_failure in rw (d, l) ((fail_with-Keeps IsPaid-IsKept e).at c now)
        ]
      ]

  failing-IsPaid : (e : Error) → Keeps (λ c. IsPaid cfg c.task) (settle_failure cfg e)
  unfolding settle_failure
  failing-IsPaid e = record {
    at = λ c p. rw (charge_plain e (add_failure e c.task)) (
        route_failure-IsPaid e
          (record c {
            task = record (add_failure e c.task) {
              fail_cost = c.task.fail_cost + cfg.failure_cost;
            };
          })
          (omega (arith, p.paid)) p.allowed);
  }

  Step-IsPaid :
      {k k' : Kernel} → Step cfg k k' → Each (IsPaid cfg) k.tasks → Each (IsPaid cfg) k'.tasks
  Step-IsPaid (submitted k k' args kwargs executor join e) h =
      subst (λ (l : Kernel). Each (IsPaid cfg) l.tasks)
        (submit-eq cfg k k' args kwargs executor join e)
        (unfold add_task in
          Each-append (IsPaid cfg) k.tasks _ h
            (record { paid = omega arith; allowed = omega arith }))
  Step-IsPaid (launch k i rest t answers q e) h = Each-set (IsPaid cfg) k.tasks i _ h (
      launch_if_ready_async-keeps IsPaid-IsKept cfg failing-IsPaid
        (λ fut c p. record { paid = p.paid; allowed = p.allowed }) (look k) answers
        (record (context k t) { pool = rest }) (h i t e))
  Step-IsPaid (try_ended k i t r e w) h =
      let p = h i t e in
      Each-set (IsPaid cfg) k.tasks i _ h (
        (handle_exec_update-Keeps IsPaid-IsKept cfg (look k) (done r) failing-IsPaid).at
          (context k (record t { exec_fu = some (done r) }))
          (record { paid = p.paid; allowed = p.allowed }))
  Step-IsPaid (joined k i t inner e calls) h =
      Each-set (IsPaid cfg) k.tasks i _ h
        ((handle_join_update-Keeps IsPaid-IsKept (look k) inner).at (context k t) (h i t e))
  Step-IsPaid (wake k i) h = h
  Step-IsPaid (other_resolved k n r e) h = h
  Step-IsPaid (cleanup k) h = h

  Reach-IsPaid : {k : Kernel} → Reach cfg k → Each (IsPaid cfg) k.tasks
  Reach-IsPaid start = λ i t e. cc
  Reach-IsPaid (next r s) = Step-IsPaid s (Reach-IsPaid r)

-- With no retry handler, the retries of a task (its try number, at the cost of one failure each)
-- never cost more than the configured `retries`, whatever happens.
pub retries_bounded :
    (cfg : Config) (k : Kernel) (i : ℕ) (t : TaskRecord)
    → cfg.retry_handler ≡ none
    → Reach cfg k
    → get_elem? k.tasks i ≡ some t
    → t.try_id * cfg.failure_cost ≤ cfg.retries
retries_bounded cfg k i t plain r e = (Reach-IsPaid cfg plain r i t e).allowed

routed_try :
    (cfg : Config) (e : Error) (c : Context)
    → c.task.status ≡ launched
    → c.task.app_fu ≡ unresolved
    → (let d = context_of ((route_failure cfg e then relaunch_if_pending) c) in
        let again = leb c.task.fail_cost cfg.retries in
        (d.task.fail_cost ≡ c.task.fail_cost)
        × (d.task.status ≡ (if again then pending else failed))
        × (d.task.try_id ≡ (if again then c.task.try_id + 1 else c.task.try_id))
        × (d.task.app_fu ≡ (if again then unresolved else done (err e)))
        × (d.pool ≡ (if again then c.pool ++ c.task.id ∷ [] else c.pool)))
unfolding route_failure relaunch_if_pending
routed_try cfg e c s h = elim (Bool-cases (leb c.task.fail_cost cfg.retries)) [
  | inl l ↦ (ground arith, ground arith, ground arith, ground arith, ground arith)
  | inr l ↦ (ground arith, ground arith, ground arith, ground arith, ground arith)
]

failing_eq :
    (cfg : Config) (looks : Futures) (e : Error) (c : Context)
    → cfg.retry_handler ≡ none
    → handle_exec_update cfg looks (done (err e)) c
      ≡ (route_failure cfg e then relaunch_if_pending) (record c {
        task = record (add_failure e c.task) { fail_cost = c.task.fail_cost + cfg.failure_cost };
      })
unfolding handle_exec_update settle_failure
failing_eq cfg looks e c plain =
    ap
      (λ (charged : ℕ × Error).
        (route_failure cfg charged.1 then relaunch_if_pending)
          (record c { task = record (add_failure e c.task) { fail_cost = charged.0 } }))
      (charge_plain cfg plain e (add_failure e c.task))

-- A launched task whose try raised, with no retry handler: within the limit it is pending again,
-- with the next try number and a launch asked for; past the limit it has failed, and its future
-- holds the exception. Its future is done in the second case only, and the cost is added in both.
pub failed_try :
    (cfg : Config) (looks : Futures) (e : Error) (c : Context)
    → cfg.retry_handler ≡ none
    → c.task.status ≡ launched
    → c.task.app_fu ≡ unresolved
    → (let d = context_of (handle_exec_update cfg looks (done (err e)) c) in
        let cost = c.task.fail_cost + cfg.failure_cost in
        let again = leb cost cfg.retries in
        (d.task.fail_cost ≡ cost)
        × (d.task.status ≡ (if again then pending else failed))
        × (d.task.try_id ≡ (if again then c.task.try_id + 1 else c.task.try_id))
        × (d.task.app_fu ≡ (if again then unresolved else done (err e)))
        × (d.pool ≡ (if again then c.pool ++ c.task.id ∷ [] else c.pool)))
failed_try cfg looks e c plain s h = rw (failing_eq cfg looks e c plain) (
    routed_try cfg e
      (record c {
        task = record (add_failure e c.task) { fail_cost = c.task.fail_cost + cfg.failure_cost };
      })
      s h)

returned_of : (run : Run) → Ends Settled run → (d : Context) × (run ≡ returned d)
returned_of (returned d) h = (d, refl)
returned_of (faulted f d) h = absurd h

-- In every reachable state the end of a running try is handled without an exception: in
-- particular no future is given a second result.
pub handler_returns :
    (cfg : Config) (k : Kernel) (i : ℕ) (t : TaskRecord) (r : Result Object)
    → Reach cfg k
    → get_elem? k.tasks i ≡ some t
    → t.exec_fu ≡ some unresolved
    → (d : Context) × (handle_exec_update cfg
          (look k)
          (done r)
          (context k (record t { exec_fu = some (done r) }))
        ≡ returned d)
handler_returns cfg k i t r reach e w =
    let v = Reach-Inv cfg reach i t e in
    returned_of _ (
      handle_exec_update-Inv cfg (look k) r (context k (record t { exec_fu = some (done r) }))
        (open_of_waiting v w) refl)
