-- ===== src/Htex/Pool/Accounts.antt =====
-- The tasks of a pool, counted, as a worker goes on (parsl/executors/high_throughput/process_worker_pool.py).
use parsl.Prelude.{
  ℕ, ◌+◌, ◌-◌, ◌≡◌, refl, ap, ◌∙◌, sym, Option, none, some, List, [], ◌∷◌, map, get_elem?, set,
  arith,
}
use parsl.Htex.Pool.{
  Pool, Worker, starting, waiting, fetched, noted, executing, reported, dead, PoolResult,
  task_result, task_exception, worker_lost, Action, get_ready, take_task, note_task, execute, die,
  watch, report, forget_task, act, start_task, put_result, restart, join,
}
use parsl.Htex.Pool.Sums.{
  hit, hits, answers, holds, held, tracked, answers-append, held-set, tracked-set, tracked-set_same,
  get-tracked,
}

-- The deaths that matter: with a task that is not noted yet, and with a task that is reported already
-- and not yet forgotten.
abbrev pub lost_by : ℕ → Action → Worker → ℕ
lost_by t die (fetched u) = hit t u
lost_by t _ _ = 0

abbrev pub doubled_by : ℕ → Action → Worker → ℕ
doubled_by t die (reported u) = hit t u
doubled_by t _ _ = 0

abbrev pub total : ℕ → Pool → ℕ
total t p =
    hits t p.pending_task_queue
    + held t p.workers
    + answers t p.pending_result_queue
    + answers t p.sent

abbrev pub IsTracked : Pool → Type 0
IsTracked p = p.tasks_in_progress ≡ map tracked p.workers

abbrev pub OnSome : (Pool → Type 0) → Option Pool → Type 0
OnSome P none = Unit
OnSome P (some p) = P p

abbrev pub Accounts : Pool → Action → Worker → Pool → Type 0
Accounts p a w q =
    IsTracked q × ((t : ℕ) → total t q + lost_by t a w ≡ total t p + doubled_by t a w)

module _ (i : ℕ) (p : Pool) (tracks : IsTracked p) where
  -- A worker moves on, and nothing else changes that is counted.
  move :
      (a : Action) (w v : Worker) (n : ℕ)
      → get_elem? p.workers i ≡ some w
      → tracked v ≡ tracked w
      → ((t : ℕ) → holds t v + lost_by t a w ≡ holds t w + doubled_by t a w)
      → Accounts p a w (record p { workers = set p.workers i v; ready_worker_count = n })
  move a w v n h e count = (
    tracks ∙ sym (tracked-set_same i w v p.workers h e),
    λ t. omega (arith, held-set t i w v p.workers h, count t),
  )

  start_task-Accounts :
      (ts : List ℕ)
      → get_elem? p.workers i ≡ some waiting
      → p.pending_task_queue ≡ ts
      → OnSome (Accounts p take_task waiting) (start_task i ts p)
  start_task-Accounts [] h q = tt
  start_task-Accounts (u ∷ ts) h q = (
    tracks ∙ sym (tracked-set_same i waiting (fetched u) p.workers h refl),
    λ t. omega (arith, held-set t i waiting (fetched u) p.workers h, ap (hits t) q),
  )

  put_result-Accounts :
      (u : ℕ) (r : PoolResult)
      → get_elem? p.workers i ≡ some (executing u)
      → OnSome (Accounts p (report r) (executing u)) (put_result i u r p)
  put_result-Accounts u (worker_lost _) h = tt
  put_result-Accounts u (task_result _) h = (
    tracks ∙ sym (tracked-set_same i (executing u) (reported u) p.workers h refl),
    λ t. omega (
      arith,
      held-set t i (executing u) (reported u) p.workers h,
      answers-append t p.pending_result_queue (task_result u ∷ []),
    ),
  )
  put_result-Accounts u (task_exception _) h = (
    tracks ∙ sym (tracked-set_same i (executing u) (reported u) p.workers h refl),
    λ t. omega (
      arith,
      held-set t i (executing u) (reported u) p.workers h,
      answers-append t p.pending_result_queue (task_exception u ∷ []),
    ),
  )

  tracks_set :
      (v : Worker) → set p.tasks_in_progress i (tracked v) ≡ map tracked (set p.workers i v)
  tracks_set v = ap (λ os. set os i (tracked v)) tracks ∙ sym (tracked-set i v p.workers)

  restart-Accounts :
      (o : Option ℕ)
      → get_elem? p.workers i ≡ some (dead o)
      → Accounts p watch (dead o) (restart i o p)
  restart-Accounts none h = move watch (dead none) starting p.ready_worker_count h refl (λ t. refl)
  restart-Accounts (some u) h = (
    tracks_set starting,
    λ t. omega (
      arith,
      held-set t i (dead (some u)) starting p.workers h,
      answers-append t p.pending_result_queue (worker_lost u ∷ []),
    ),
  )

  pub act-Accounts :
      (a : Action) (w : Worker)
      → get_elem? p.workers i ≡ some w
      → OnSome (Accounts p a w) (act i a w p)
  unfolding act
  act-Accounts get_ready starting h =
      move get_ready starting waiting (p.ready_worker_count + 1) h refl (λ t. refl)
  act-Accounts take_task waiting h = start_task-Accounts p.pending_task_queue h refl
  act-Accounts note_task (fetched u) h =
      (tracks_set (noted u), λ t. omega (arith, held-set t i (fetched u) (noted u) p.workers h))
  act-Accounts execute (noted u) h =
      move execute (noted u) (executing u) (p.ready_worker_count - 1) h refl (λ t. refl)
  act-Accounts (report r) (executing u) h = put_result-Accounts u r h
  act-Accounts forget_task (reported u) h =
      (tracks_set starting, λ t. omega (arith, held-set t i (reported u) starting p.workers h))
  act-Accounts die starting h =
      move die starting (dead none) p.ready_worker_count h refl (λ t. refl)
  act-Accounts die waiting h = move die waiting (dead none) p.ready_worker_count h refl (λ t. refl)
  act-Accounts die (fetched u) h =
      move die (fetched u) (dead none) p.ready_worker_count h refl (λ t. omega arith)
  act-Accounts die (noted u) h =
      move die (noted u) (dead (some u)) p.ready_worker_count h refl (λ t. refl)
  act-Accounts die (executing u) h =
      move die (executing u) (dead (some u)) p.ready_worker_count h refl (λ t. refl)
  act-Accounts die (reported u) h =
      move die (reported u) (dead (some u)) p.ready_worker_count h refl (λ t. omega arith)
  act-Accounts watch (dead o) h =
      rw (ap (λ os. join (get_elem? os i)) tracks ∙ ap join (get-tracked i (dead o) p.workers h))
        (restart-Accounts o h)
  act-Accounts _ _ h = tt
