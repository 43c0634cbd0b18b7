-- ===== src/Dataflow/Kernel/Outcomes.antt =====
-- The results of tasks, in every state that the kernel of parsl/dataflow/dflow.py reaches.
use mathlib.Core.Option.{some-injective}
use parsl.Prelude.{
  ℕ, zero, suc, true, false, ◌≡◌, sym, ap, subst, ◌∙◌, Option, some, List, [], ◌∷◌, ◌++◌, get_elem?,
  set, arith,
}
use parsl.Dataflow.Objects.{Futures, Ref, unresolved}
use parsl.Dataflow.States.{States, same, is_final, pending, joining}
use parsl.Dataflow.Record.{TaskRecord, Context, context_of}
use parsl.Dataflow.Config.{Config}
use parsl.Dataflow.Joins.{handle_join_update}
use parsl.Dataflow.Launch.{Answers, launch_if_ready_async}
use parsl.Dataflow.Invariant.{Inv}
use parsl.Dataflow.Kernel.{
  Kernel, look, context, add_task, Step, submitted, launch, try_ended, joined, wake, other_resolved,
  cleanup, Reach,
}
use parsl.Dataflow.Kernel.Reachable.{submit-eq, Reach-Inv}

-- The task keeps its record when the event leaves the record of a final task alone.
set_fixed :
    (ts : List TaskRecord) (j i : ℕ) (x t u : TaskRecord)
    → get_elem? ts j ≡ some x
    → get_elem? ts i ≡ some t
    → (x ≡ t → u ≡ t)
    → get_elem? (set ts j u) i ≡ some t
set_fixed [] j i x t u a b h = cc
set_fixed (y ∷ ys) zero zero x t u a b h =
    ap some (h (sym (some-injective _ _ a) ∙ some-injective _ _ b))
set_fixed (y ∷ ys) zero (suc i) x t u a b h = b
set_fixed (y ∷ ys) (suc j) zero x t u a b h = b
set_fixed (y ∷ ys) (suc j) (suc i) x t u a b h = set_fixed ys j i x t u a b h

get-append :
    (ts : List TaskRecord) (i : ℕ) (t u : TaskRecord)
    → get_elem? ts i ≡ some t
    → get_elem? (ts ++ u ∷ []) i ≡ some t
get-append [] i t u e = cc
get-append (x ∷ xs) zero t u e = e
get-append (x ∷ xs) (suc i) t u e = get-append xs i t u e

not_pending : (s : States) → is_final s ≡ true → same s pending ≡ false
unfolding is_final same
not_pending s h = ground arith

not_joining : (s : States) → is_final s ≡ true → same s joining ≡ false
unfolding is_final same
not_joining s h = ground arith

launch-final :
    (cfg : Config) (look : Futures) (answers : Answers) (c : Context)
    → is_final c.task.status ≡ true
    → launch_if_ready_async cfg look answers c ≡ c
unfolding launch_if_ready_async
launch-final cfg look answers c h = rw (not_pending c.task.status h)

join-final :
    (look : Futures) (inner : Option Ref) (c : Context)
    → is_final c.task.status ≡ true
    → context_of (handle_join_update look inner c) ≡ c
unfolding handle_join_update
join-final look inner c h = rw (not_joining c.task.status h)

waiting_not_final :
    {t : TaskRecord} → Inv t → t.exec_fu ≡ some unresolved → is_final t.status ≡ true → ⊥
unfolding same is_final
waiting_not_final v w f = ground arith

-- No event changes the record of a task in a final state: neither its state nor its result.
pub final_absorbs :
    (cfg : Config) (k k' : Kernel) (i : ℕ) (t : TaskRecord)
    → Reach cfg k
    → Step cfg k k'
    → get_elem? k.tasks i ≡ some t
    → is_final t.status ≡ true
    → get_elem? k'.tasks i ≡ some t
final_absorbs cfg k k' i t r (submitted _ _ args kwargs executor join e) g f =
    subst (λ (l : Kernel). get_elem? l.tasks i ≡ some t)
      (submit-eq cfg k k' args kwargs executor join e)
      (unfold add_task in get-append k.tasks i t _ g)
final_absorbs cfg k k' i t r (launch _ j rest x answers q e) g f =
    set_fixed k.tasks j i x t _ e g (λ p.
      ap (λ (c : Context). c.task)
        (launch-final cfg (look k) answers (record (context k x) { pool = rest }) (rw p f))
      ∙ p)
final_absorbs cfg k k' i t r (try_ended _ j x out e w) g f =
    set_fixed k.tasks j i x t _ e g
      (λ p. absurd (waiting_not_final (Reach-Inv cfg r j x e) w (rw p f)))
final_absorbs cfg k k' i t r (joined _ j x inner e calls) g f =
    set_fixed k.tasks j i x t _ e g
      (λ p. ap (λ (c : Context). c.task) (join-final (look k) inner (context k x) (rw p f)) ∙ p)
final_absorbs cfg k k' i t r (wake _ j) g f = g
final_absorbs cfg k k' i t r (other_resolved _ n out e) g f = g
final_absorbs cfg k k' i t r (cleanup _) g f = g
