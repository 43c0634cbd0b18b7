-- ===== src/Dataflow/Kernel/Reachable.antt =====
-- What holds in every state that the kernel of parsl/dataflow/dflow.py reaches.
use mathlib.Core.Option.{some-injective}
use parsl.Prelude.{
  ℕ, zero, suc, String, Bool, true, false, ◌≡◌, refl, subst, none, some, List, [], ◌∷◌, ◌++◌,
  get_elem?, set, arith, if◌then◌else◌,
}
use parsl.Dataflow.Objects.{Object, unresolved, done}
use parsl.Dataflow.States.{same, is_final}
use parsl.Dataflow.Record.{TaskRecord}
use parsl.Dataflow.Config.{Config}
use parsl.Dataflow.Joins.{handle_join_update}
use parsl.Dataflow.Exec.{handle_exec_update}
use parsl.Dataflow.Invariant.{Inv, Settled, context_of-Ends}
use parsl.Dataflow.Invariant.Joins.{handle_join_update-Inv}
use parsl.Dataflow.Invariant.Exec.{handle_exec_update-Inv}
use parsl.Dataflow.Invariant.Launch.{launch_if_ready_async-Inv}
use parsl.Dataflow.Kernel.{
  Kernel, look, context, submit, add_task, Step, submitted, launch, try_ended, joined, wake,
  other_resolved, cleanup, Reach, start, next,
}

-- Every record of the list has the property.
abbrev pub Each : (TaskRecord → Type 0) → List TaskRecord → Type 0
Each P ts = (i : ℕ) (t : TaskRecord) → get_elem? ts i ≡ some t → P t

pub Each-set :
    (P : TaskRecord → Type 0) (ts : List TaskRecord) (i : ℕ) (u : TaskRecord)
    → Each P ts
    → P u
    → Each P (set ts i u)
Each-set P [] i u h p j t e = cc
Each-set P (x ∷ xs) zero u h p zero t e = subst P (some-injective _ _ e) p
Each-set P (x ∷ xs) zero u h p (suc j) t e = h (suc j) t e
Each-set P (x ∷ xs) (suc i) u h p zero t e = h zero t e
Each-set P (x ∷ xs) (suc i) u h p (suc j) t e = Each-set P xs i u (λ k. h (suc k)) p j t e

pub Each-append :
    (P : TaskRecord → Type 0) (ts : List TaskRecord) (u : TaskRecord)
    → Each P ts
    → P u
    → Each P (ts ++ u ∷ [])
Each-append P [] u h p zero t e = subst P (some-injective _ _ e) p
Each-append P [] u h p (suc j) t e = cc
Each-append P (x ∷ xs) u h p zero t e = h zero t e
Each-append P (x ∷ xs) u h p (suc j) t e = Each-append P xs u (λ k. h (suc k)) p j t e

-- The try of this task has ended: its record's future is open.
pub open_of_waiting : {t : TaskRecord} → Inv t → t.exec_fu ≡ some unresolved → t.app_fu ≡ unresolved
unfolding same is_final
open_of_waiting v w = ground arith

eq_of_open : (b : Bool) (x y : Kernel) → (if b then none else some x) ≡ some y → x ≡ y
eq_of_open true x y e = cc
eq_of_open false x y e = some-injective _ _ e

module _ (cfg : Config) where
  pub submit-eq :
      (k k' : Kernel) (args : List Object) (kwargs : List (String × Object)) (executor : String)
      (join : Bool)
      → submit cfg args kwargs executor join k ≡ some k'
      → add_task cfg args kwargs executor join k ≡ k'
  unfolding submit
  submit-eq k k' args kwargs executor join e = eq_of_open k.cleanup_called _ _ e

  add_task-Inv :
      (k : Kernel) (args : List Object) (kwargs : List (String × Object)) (executor : String)
      (join : Bool)
      → Each Inv k.tasks
      → Each Inv (add_task cfg args kwargs executor join k).tasks
  unfolding add_task same is_final
  add_task-Inv k args kwargs executor join h =
      Each-append Inv k.tasks _ h
        (record { kernel = refl; resolved = refl; waiting = refl; joined = λ e. cc })

  Step-Inv : {k k' : Kernel} → Step cfg k k' → Each Inv k.tasks → Each Inv k'.tasks
  Step-Inv (submitted k k' args kwargs executor join e) h =
      subst (λ l. Each Inv l.tasks) (submit-eq k k' args kwargs executor join e)
        (add_task-Inv k args kwargs executor join h)
  Step-Inv (launch k i rest t answers q e) h = Each-set Inv k.tasks i _ h (
      launch_if_ready_async-Inv cfg (look k) answers (record (context k t) { pool = rest })
        (h i t e))
  Step-Inv (try_ended k i t r e w) h =
      let ended = context k (record t { exec_fu = some (done r) }) in
      Each-set Inv k.tasks i _ h (
        context_of-Ends Settled (handle_exec_update cfg (look k) (done r) ended)
          (handle_exec_update-Inv cfg (look k) r ended (open_of_waiting (h i t e) w) refl))
  Step-Inv (joined k i t inner e calls) h = Each-set Inv k.tasks i _ h (
      context_of-Ends Settled (handle_join_update (look k) inner (context k t))
        (handle_join_update-Inv (look k) inner (context k t) (h i t e) calls))
  Step-Inv (wake k i) h = h
  Step-Inv (other_resolved k n r e) h = h
  Step-Inv (cleanup k) h = h

  pub Reach-Inv : {k : Kernel} → Reach cfg k → Each Inv k.tasks
  Reach-Inv start = λ i t e. cc
  Reach-Inv (next r s) = Step-Inv s (Reach-Inv r)
