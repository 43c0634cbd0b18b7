-- ===== src/Dataflow/Keeps.antt =====
-- What the handlers of parsl/dataflow/dflow.py leave alone: a property of the context that each
-- elementary change keeps is kept by every handler, also by one that raises.
pub mod Exec
pub mod Launch
use parsl.Prelude.{
  ℕ, ◌+◌, Bool, true, false, ◌≡◌, refl, Option, none, some, List, [], ◌∷◌, leb, if◌then◌else◌,
  Bool-cases, inl, inr, not,
}
use parsl.Dataflow.Objects.{
  Error, Failures, no_failures, failure, Object, Items, FutureState, Futures, Result, Ref, is_done,
  unresolved, done, ok, err, future, sequence, list, join_error, join_type_error,
}
use parsl.Dataflow.States.{
  States, same, dep_fail, pending, failed, fail_retryable, joining, exec_done, memo_done,
}
use parsl.Dataflow.Record.{
  TaskRecord, Context, Run, returned, faulted, Action, ◌then◌, pass, raise, Fault, context_of,
  modify, set_app_fu, set_done, update_task_state, launch_if_ready,
}
use parsl.Dataflow.Config.{Config}
use parsl.Dataflow.Joins.{
  futures_of, finish_join, join_one, join_many, join_on, handle_join_update, add_join_callbacks,
  start_join_list, start_join, refuse_join, begin_join, complete_task, add_failure,
}
use parsl.Dataflow.Exec.{
  handle_exec_update, settle_success, settle_failure, route_failure, relaunch_if_pending,
  unwrap_remote_exception_wrapper, settle,
}

-- The fields that only `submit` and a launch write.
pub record SameCore (t u : TaskRecord) : Type 0 where
  pub id : t.id ≡ u.id
  pub status : t.status ≡ u.status
  pub depends : t.depends ≡ u.depends
  pub exec_fu : t.exec_fu ≡ u.exec_fu

-- The fields that count the tries.
pub record SameTries (t u : TaskRecord) : Type 0 where
  pub try_id : t.try_id ≡ u.try_id
  pub fail_cost : t.fail_cost ≡ u.fail_cost

-- The elementary changes: of the state, of the task's future, of other fields, of the pool.
pub record IsKept (P : Context → Type 0) : Type 0 where
  pub state : (s : States) (c : Context) → P c → P (context_of (update_task_state s c))
  pub resolve :
      (x : FutureState) (c : Context) → P c → P (record c { task = record c.task { app_fu = x } })
  pub edit :
      (t : TaskRecord) (c : Context)
      → SameCore t c.task
      → SameTries t c.task
      → P c
      → P (record c { task = t })
  pub queue : (l : List ℕ) (c : Context) → P c → P (record c { pool = l })

-- A property that does not look at the tries either.
pub record IsKeptByTries (P : Context → Type 0) : Type 0 where
  pub count : (t : TaskRecord) (c : Context) → SameCore t c.task → P c → P (record c { task = t })

-- The action keeps `P`, whether it returns or raises.
pub record Keeps (P : Context → Type 0) (a : Action) : Type 0 where
  pub at : (c : Context) → P c → P (context_of (a c))

module _ {P : Context → Type 0} where
  pass-Keeps : Keeps P pass
  pass-Keeps = record { at = λ c p. p }

  raise-Keeps : (f : Fault) → Keeps P (raise f)
  raise-Keeps f = record { at = λ c p. p }

  then-Keeps : {a b : Action} → Keeps P a → Keeps P b → Keeps P (a then b)
  then-Keeps {a} {b} ka kb = record { at = λ c p. go (a c) (ka.at c p) }
    where
      go :
          (r : Run)
          → P (context_of r)
          → P (context_of (elim r [ returned d ↦ b d | faulted f d ↦ faulted f d ]))
      go (returned d) q = kb.at d q
      go (faulted f d) q = q

  choose-Keeps : (t : Bool) {a b : Action} → Keeps P a → Keeps P b → Keeps P (if t then a else b)
  choose-Keeps true ka kb = ka
  choose-Keeps false ka kb = kb

module _ {P : Context → Type 0} (kept : IsKept P) where
  state-Keeps : (s : States) → Keeps P (update_task_state s)
  state-Keeps s = record { at = kept.state s }

  pub set_app_fu-Keeps : (r : Result Object) → Keeps P (set_app_fu r)
  unfolding set_app_fu
  set_app_fu-Keeps r = record { at = λ c p. go c p c.task.app_fu }
    where
      go : (c : Context) → P c → (s : FutureState) → P (context_of (set_done r s c))
      go c p unresolved = kept.resolve (done r) c p
      go c p (done x) = p

  complete_task-Keeps : (s : States) (o : Object) → Keeps P (complete_task s o)
  unfolding complete_task
  complete_task-Keeps s o =
      choose-Keeps _ (then-Keeps (state-Keeps s) (set_app_fu-Keeps (ok o))) (raise-Keeps _)

  pub fail_with-Keeps : (e : Error) → Keeps P (update_task_state failed then set_app_fu (err e))
  fail_with-Keeps e = then-Keeps (state-Keeps failed) (set_app_fu-Keeps (err e))

  edit-Keeps :
      (f : TaskRecord → TaskRecord)
      → ((t : TaskRecord) → SameCore (f t) t)
      → ((t : TaskRecord) → SameTries (f t) t)
      → Keeps P (modify f)
  edit-Keeps f core tries = record {
    at = λ c p. kept.edit (f c.task) c (core c.task) (tries c.task) p;
  }

  finish_join-Keeps : (fs : Failures) (o : Object) → Keeps P (finish_join fs o)
  unfolding finish_join
  finish_join-Keeps no_failures o = complete_task-Keeps exec_done o
  finish_join-Keeps (failure e x rest) o = record {
    at = λ c p.
        let error = join_error (failure e x rest) c.task.id in
        (then-Keeps
            (then-Keeps
              (edit-Keeps (add_failure error)
                (λ t. record { id = refl; status = refl; depends = refl; exec_fu = refl })
                (λ t. record { try_id = refl; fail_cost = refl }))
              (state-Keeps failed))
            (set_app_fu-Keeps (err error))).at
          c p;
  }

  join_one-Keeps : (s : FutureState) (f : Ref) (inner : Option Ref) → Keeps P (join_one s f inner)
  unfolding join_one
  join_one-Keeps unresolved f inner = raise-Keeps _
  join_one-Keeps (done (err e)) f inner =
      finish_join-Keeps (failure e (future f) no_failures) (future f)
  join_one-Keeps (done (ok v)) f inner =
      choose-Keeps _ (finish_join-Keeps no_failures v) (raise-Keeps _)

  join_many-Keeps : (look : Futures) (fs : Option (List Ref)) → Keeps P (join_many look fs)
  unfolding join_many
  join_many-Keeps look none = raise-Keeps _
  join_many-Keeps look (some fs) = choose-Keeps _ (finish_join-Keeps _ _) pass-Keeps

  join_on-Keeps :
      (look : Futures) (inner : Option Ref) (j : Option Object) → Keeps P (join_on look inner j)
  unfolding join_on
  join_on-Keeps look inner (some (future f)) = join_one-Keeps (look f) f inner
  join_on-Keeps look inner (some (sequence list xs)) = join_many-Keeps look (futures_of xs)
  join_on-Keeps look inner _ = raise-Keeps _

  pub handle_join_update-Keeps :
      (look : Futures) (inner : Option Ref) → Keeps P (handle_join_update look inner)
  unfolding handle_join_update
  handle_join_update-Keeps look inner = record {
    at = λ c p.
        (choose-Keeps (same c.task.status joining) (join_on-Keeps look inner c.task.joins)
            pass-Keeps).at
          c p;
  }

  add_join_callbacks-at :
      (look : Futures) (fs : List Ref) (c : Context)
      → P c
      → P (context_of (add_join_callbacks look fs c))
  unfolding add_join_callbacks
  add_join_callbacks-at look [] c p = p
  add_join_callbacks-at look (f ∷ fs) c p = elim (Bool-cases (is_done (look f))) [
    | inl d ↦
        rw d (add_join_callbacks-at look fs _ ((handle_join_update-Keeps look (some f)).at c p))
    | inr d ↦ rw d (add_join_callbacks-at look fs c p)
  ]

  add_join_callbacks-Keeps : (look : Futures) (fs : List Ref) → Keeps P (add_join_callbacks look fs)
  add_join_callbacks-Keeps look fs = record { at = add_join_callbacks-at look fs }

  begin_join-Keeps : (o : Object) → Keeps P (begin_join o)
  unfolding begin_join
  begin_join-Keeps o = then-Keeps (state-Keeps joining) (
      edit-Keeps (λ t. record t { joins = some o })
        (λ t. record { id = refl; status = refl; depends = refl; exec_fu = refl })
        (λ t. record { try_id = refl; fail_cost = refl }))

  refuse_join-Keeps : Keeps P refuse_join
  unfolding refuse_join
  refuse_join-Keeps = fail_with-Keeps join_type_error

  start_join_list-Keeps :
      (look : Futures) (xs : Items) (fs : Option (List Ref)) → Keeps P (start_join_list look xs fs)
  unfolding start_join_list
  start_join_list-Keeps look xs none = refuse_join-Keeps
  start_join_list-Keeps look xs (some []) =
      then-Keeps (begin_join-Keeps (sequence list xs)) (handle_join_update-Keeps look none)
  start_join_list-Keeps look xs (some (f ∷ fs)) =
      then-Keeps (begin_join-Keeps (sequence list xs)) (add_join_callbacks-Keeps look (f ∷ fs))

  start_join-Keeps : (look : Futures) (o : Object) → Keeps P (start_join look o)
  unfolding start_join
  start_join-Keeps look (future f) =
      then-Keeps (begin_join-Keeps (future f)) (add_join_callbacks-Keeps look (f ∷ []))
  start_join-Keeps look (sequence list xs) = start_join_list-Keeps look xs (futures_of xs)
  start_join-Keeps look _ = refuse_join-Keeps
