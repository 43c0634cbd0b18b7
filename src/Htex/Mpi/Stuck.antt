-- ===== src/Htex/Mpi/Stuck.antt =====
-- A backlog of which no task fits (parsl/executors/high_throughput/mpi_resource_management.py).
use parsl.Prelude.{
  ℕ, zero, suc, ◌≤◌, ◌<◌, false, ◌≡◌, refl, List, [], ◌∷◌, leb, ◌==◌, arith, Bool-cases, inl, inr,
  ap, All, ◌∙◌, subst,
}
use parsl.Htex.Mpi.{
  MpiTask, MpiTaskScheduler, finished, recursion_error, put_task, put_backlog, after, attempt,
  schedule_backlog_tasks,
}
use parsl.Htex.Mpi.Nodes.{put_task-waits}

abbrev pub AllAbove : ℕ → List MpiTask → Type 0
AllAbove n = All (λ t. n < t.num_nodes)

-- The lowest demand comes first.
abbrev pub IsSorted : List MpiTask → Type 0
IsSorted [] = Unit
IsSorted (t ∷ ts) = All (λ x. t.num_nodes ≤ x.num_nodes) ts × IsSorted ts

pub not_zero : (t : MpiTask) (n : ℕ) → n < t.num_nodes → (t.num_nodes == 0) ≡ false
not_zero t n h = ground arith

too_large : (t : MpiTask) (n : ℕ) → n < t.num_nodes → leb t.num_nodes n ≡ false
too_large t n h = ground arith

AllAbove-put :
    (n : ℕ) (t : MpiTask) (ts : List MpiTask)
    → n < t.num_nodes
    → AllAbove n ts
    → AllAbove n (put_backlog t ts)
unfolding put_backlog
AllAbove-put n t [] h a = (h, tt)
AllAbove-put n t (x ∷ ts) h a = elim (Bool-cases (leb x.num_nodes t.num_nodes)) [
  | inl l ↦ rw l (a.0, AllAbove-put n t ts h a.1)
  | inr l ↦ rw l (h, a)
]

pub AllAbove-of_sorted :
    (n m : ℕ) (ts : List MpiTask)
    → n < m
    → All (λ (x : MpiTask). m ≤ x.num_nodes) ts
    → AllAbove n ts
AllAbove-of_sorted n m [] h a = tt
AllAbove-of_sorted n m (x ∷ ts) h a =
    (let least = a.0 in omega arith, AllAbove-of_sorted n m ts h a.1)

put_backlog-cons :
    (t : MpiTask) (ts : List MpiTask)
    → (x : MpiTask) × (xs : List MpiTask) × (put_backlog t ts ≡ x ∷ xs)
unfolding put_backlog
put_backlog-cons t [] = (t, [], refl)
put_backlog-cons t (x ∷ ts) = elim (Bool-cases (leb x.num_nodes t.num_nodes)) [
  | inl l ↦ (x, put_backlog t ts, rw l refl)
  | inr l ↦ (t, x ∷ ts, rw l refl)
]

pub schedule_eq :
    (depth : ℕ) (s : MpiTaskScheduler) (t : MpiTask) (ts : List MpiTask)
    → s.backlog_queue ≡ t ∷ ts
    → schedule_backlog_tasks (suc depth) s
      ≡ after (put_task t (record s { backlog_queue = ts })) (schedule_backlog_tasks depth)
unfolding schedule_backlog_tasks
schedule_eq depth s t ts e = ap (λ q. attempt q s (schedule_backlog_tasks depth)) e

pub schedule_empty :
    (depth : ℕ) (s : MpiTaskScheduler)
    → s.backlog_queue ≡ []
    → schedule_backlog_tasks (suc depth) s ≡ finished s
unfolding schedule_backlog_tasks
schedule_empty depth s e = ap (λ q. attempt q s (schedule_backlog_tasks depth)) e

pub stuck :
    (depth : ℕ) (s : MpiTaskScheduler) (t : MpiTask) (ts : List MpiTask)
    → s.backlog_queue ≡ t ∷ ts
    → AllAbove s.free_node_counter (t ∷ ts)
    → schedule_backlog_tasks depth s ≡ recursion_error
stuck zero s t ts e a = unfold schedule_backlog_tasks in refl
stuck (suc depth) s t ts e a =
    let popped : MpiTaskScheduler = record s { backlog_queue = ts } in
    let (x, xs, f) = put_backlog-cons t ts in
    schedule_eq depth s t ts e
    ∙ ap (λ o. after o (schedule_backlog_tasks depth))
        (put_task-waits t popped (not_zero t s.free_node_counter a.0)
          (too_large t s.free_node_counter a.0))
    ∙ stuck depth (record s { backlog_queue = put_backlog t ts }) x xs f
        (subst (AllAbove s.free_node_counter) f (AllAbove-put s.free_node_counter t ts a.0 a.1))
