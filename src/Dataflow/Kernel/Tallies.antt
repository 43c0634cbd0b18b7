-- ===== src/Dataflow/Kernel/Tallies.antt =====
-- The counters of parsl/dataflow/dflow.py are exact in every reachable state.
use parsl.Prelude.{
  ℕ, ◌+◌, String, Bool, ◌≡◌, refl, subst, ◌∙◌, some, List, length, get_elem?, arith,
}
use parsl.Dataflow.Objects.{Error, Object, done}
use parsl.Dataflow.States.{States, unsched, pending}
use parsl.Dataflow.Record.{TaskRecord, Counts, recount, Context}
use parsl.Dataflow.Config.{Config}
use parsl.Dataflow.Exec.{settle_failure}
use parsl.Dataflow.Keeps.{Keeps, handle_join_update-Keeps}
use parsl.Dataflow.Keeps.Exec.{handle_exec_update-Keeps, settle_failure-Keeps}
use parsl.Dataflow.Keeps.Launch.{launch_if_ready_async-keeps}
use parsl.Dataflow.Kernel.{
  Kernel, look, launched_context, ended_context, joined_context, context, put_back, new_task,
  count_new, add_task, Step, submitted, launch, try_ended, joined, wake, other_resolved, cleanup,
  Reach, start, next,
}
use parsl.Dataflow.Kernel.Counting.{
  one, count_status, Tally, Tally-IsKept, Tally-IsKeptByTries, count_status-set,
  count_status-append, count_status-le,
}
use parsl.Dataflow.Kernel.Reachable.{submit-eq}

-- The counts are those of the tasks.
abbrev pub Counted : Kernel → Type 0
Counted k = (s : States) → k.counts s ≡ count_status s k.tasks

put_back-Counted :
    (k : Kernel) (i : ℕ) (t : TaskRecord) (c : Context)
    → get_elem? k.tasks i ≡ some t
    → Counted k
    → ((others : States → ℕ) → Tally others (context k t) → Tally others c)
    → Counted (put_back k i c)
put_back-Counted k i t c e h keeps s =
    let others : States → ℕ = λ x. (count_status-le x k.tasks i t e).0 in
    omega (
      arith,
      keeps others (λ x. h x ∙ (count_status-le x k.tasks i t e).1) s,
      count_status-set s k.tasks i t c.task e,
      (count_status-le s k.tasks i t e).1,
    )

recount_new :
    (counts : Counts) (s : States)
    → recount unsched pending (count_new unsched counts) s ≡ counts s + one pending s
unfolding recount count_new
recount_new counts s = ground arith

module _ (cfg : Config) where
  failing-Tally : (others : States → ℕ) (e : Error) → Keeps (Tally others) (settle_failure cfg e)
  failing-Tally others = settle_failure-Keeps (Tally-IsKept others) (Tally-IsKeptByTries others) cfg

  add_task-Counted :
      (k : Kernel) (args : List Object) (kwargs : List (String × Object)) (executor : String)
      (join : Bool)
      → Counted k
      → Counted (add_task cfg args kwargs executor join k)
  unfolding add_task
  add_task-Counted k args kwargs executor join h s = omega (
    arith,
    recount_new k.counts s,
    count_status-append s k.tasks
        (record (new_task cfg (length k.tasks) args kwargs executor join) { status = pending }),
    h s,
  )

  Step-Counted : {k k' : Kernel} → Step cfg k k' → Counted k → Counted k'
  Step-Counted (submitted k k' args kwargs executor join e) h =
      subst Counted (submit-eq cfg k k' args kwargs executor join e)
        (add_task-Counted k args kwargs executor join h)
  Step-Counted (launch k i rest t answers q e) h =
      put_back-Counted k i t (launched_context cfg k rest t answers) e h (λ others p.
        launch_if_ready_async-keeps (Tally-IsKept others) cfg (failing-Tally others) (λ fut c y. y)
          (look k) answers (record (context k t) { pool = rest }) p)
  Step-Counted (try_ended k i t r e w) h =
      put_back-Counted k i t (ended_context cfg k t r) e h (λ others p.
        (handle_exec_update-Keeps (Tally-IsKept others) cfg (look k) (done r)
            (failing-Tally others)).at
          (context k (record t { exec_fu = some (done r) })) p)
  Step-Counted (joined k i t inner e calls) h =
      put_back-Counted k i t (joined_context k t inner) e h (λ others p.
        (handle_join_update-Keeps (Tally-IsKept others) (look k) inner).at (context k t) p)
  Step-Counted (wake k i) h = h
  Step-Counted (other_resolved k n r e) h = h
  Step-Counted (cleanup k) h = h

  Reach-Counted : {k : Kernel} → Reach cfg k → Counted k
  Reach-Counted start = λ s. unfold count_status in refl
  Reach-Counted (next r s) = Step-Counted s (Reach-Counted r)

-- In every reachable state, for every state of a task, `task_state_counts` holds exactly the
-- number of tasks that are in that state.
pub counts_exact :
    (cfg : Config) (k : Kernel) (s : States) → Reach cfg k → k.counts s ≡ count_status s k.tasks
counts_exact cfg k s r = Reach-Counted cfg r s
