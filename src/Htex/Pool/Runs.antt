-- ===== src/Htex/Pool/Runs.antt =====
-- No task is lost or answered twice, but when a worker dies between two lines of its loop
-- (parsl/executors/high_throughput/process_worker_pool.py).
use parsl.Prelude.{
  ℕ, zero, suc, ◌+◌, ◌≡◌, refl, ap, Option, none, some, List, [], ◌∷◌, map, get_elem?, arith,
}
use mathlib.Core.Option.{some-injective}
use parsl.Htex.Pool.{
  Pool, Worker, PoolResult, act, act_on, send_first, Event, receive, at_worker, ferry, happen, run,
  new_pool, no_tasks, starting_workers,
}
use parsl.Htex.Pool.Sums.{hits, answers, held, tracked, hits-append, answers-append}
use parsl.Htex.Pool.Accounts.{IsTracked, OnSome, Accounts, act-Accounts, lost_by, doubled_by, total}

abbrev lost_at : ℕ → Event → Pool → ℕ
lost_at t (receive ts) p = 0
lost_at t (at_worker i a) p = elim (get_elem? p.workers i) [ none ↦ 0 | some w ↦ lost_by t a w ]
lost_at t ferry p = 0

abbrev doubled_at : ℕ → Event → Pool → ℕ
doubled_at t (receive ts) p = 0
doubled_at t (at_worker i a) p = elim (get_elem? p.workers i) [
  | none ↦ 0
  | some w ↦ doubled_by t a w
]
doubled_at t ferry p = 0

abbrev received_at : ℕ → Event → ℕ
received_at t (receive ts) = hits t ts
received_at t (at_worker i a) = 0
received_at t ferry = 0

-- How often the task has come in, and how often a worker has died with it: with it just fetched, and
-- with it just reported.
abbrev pub received : ℕ → List Event → ℕ
received t [] = 0
received t (e ∷ es) = received_at t e + received t es

abbrev pub lost : ℕ → List Event → Pool → ℕ
lost t [] p = 0
lost t (e ∷ es) p = lost_at t e p + elim (happen e p) [ none ↦ 0 | some q ↦ lost t es q ]

abbrev pub doubled : ℕ → List Event → Pool → ℕ
doubled t [] p = 0
doubled t (e ∷ es) p = doubled_at t e p + elim (happen e p) [ none ↦ 0 | some q ↦ doubled t es q ]

abbrev Happens : Pool → Event → Pool → Type 0
Happens p e q =
    IsTracked q
    × ((t : ℕ) → total t q + lost_at t e p ≡ total t p + received_at t e + doubled_at t e p)

happen-Happens : (e : Event) (p : Pool) → IsTracked p → OnSome (Happens p e) (happen e p)
unfolding happen
happen-Happens (receive ts) p tracks =
    (tracks, λ t. omega (arith, hits-append t p.pending_task_queue ts))
happen-Happens ferry p tracks = sends p.pending_result_queue refl
  where
    sends :
        (rs : List PoolResult)
        → p.pending_result_queue ≡ rs
        → OnSome (Happens p ferry) (send_first rs p)
    sends [] e = tt
    sends (r ∷ rs) e =
        (tracks, λ t. omega (arith, ap (answers t) e, answers-append t p.sent (r ∷ [])))
happen-Happens (at_worker i a) p tracks = by_worker (get_elem? p.workers i) refl
  where
    by_worker :
        (o : Option Worker)
        → get_elem? p.workers i ≡ o
        → OnSome
            (λ q.
              IsTracked q
              × ((t : ℕ)
                  → total t q + elim o [ none ↦ 0 | some w ↦ lost_by t a w ]
                    ≡ total t p + 0 + elim o [ none ↦ 0 | some w ↦ doubled_by t a w ]))
            (act_on i a o p)
    by_worker none h = tt
    by_worker (some w) h = OnSome-map (act i a w p) (act-Accounts i p tracks a w h)
      where
        OnSome-map :
            (o : Option Pool)
            → OnSome (Accounts p a w) o
            → OnSome
                (λ q.
                  IsTracked q
                  × ((t : ℕ) → total t q + lost_by t a w ≡ total t p + 0 + doubled_by t a w))
                o
        OnSome-map none r = tt
        OnSome-map (some q) r = (r.0, λ t. omega (arith, r.1 t))

run_accounts :
    (es : List Event) (p q : Pool) (t : ℕ)
    → IsTracked p
    → run es p ≡ some q
    → total t q + lost t es p ≡ total t p + received t es + doubled t es p
unfolding run
run_accounts [] p q t tracks h = let same = ap (total t) (some-injective _ _ h) in omega arith
run_accounts (e ∷ es) p q t tracks h =
    by_first (happen e p) (happen-Happens e p tracks) h (λ n. run_accounts es n q t)
  where
    by_first :
        (o : Option Pool)
        → OnSome (Happens p e) o
        → elim o [ none ↦ none | some n ↦ run es n ] ≡ some q
        → ((n : Pool)
            → IsTracked n
            → run es n ≡ some q
            → total t q + lost t es n ≡ total t n + received t es + doubled t es n)
        → total t q + (lost_at t e p + elim o [ none ↦ 0 | some n ↦ lost t es n ])
          ≡ total t p
            + (received_at t e + received t es)
            + (doubled_at t e p + elim o [ none ↦ 0 | some n ↦ doubled t es n ])
    by_first none a r ih = cc
    by_first (some n) a r ih = omega (arith, a.1 t, ih n a.0 r)

new_pool-IsTracked : (n : ℕ) → no_tasks n ≡ map tracked (starting_workers n)
unfolding new_pool
new_pool-IsTracked zero = refl
new_pool-IsTracked (suc n) = ap (λ os. none ∷ os) (new_pool-IsTracked n)

held-starting_workers : (t n : ℕ) → held t (starting_workers n) ≡ 0
unfolding new_pool
held-starting_workers t zero = refl
held-starting_workers t (suc n) = omega (arith, held-starting_workers t n)

-- A manager starts with any number of workers, and tasks come in, workers go on, die and are restarted,
-- and results are sent, in any order. For every task: the times it is in the queue of tasks, in the
-- hands of a worker, or answered, with the deaths of a worker that has it but has not noted it, are the
-- times it has come in, with the deaths of a worker that has reported it but has not forgotten it. So
-- without such deaths each task is answered exactly as often as it has come in, once none is left.
pub pool_accounts :
    (n : ℕ) (es : List Event) (q : Pool) (t : ℕ)
    → run es (new_pool n) ≡ some q
    → hits t q.pending_task_queue
        + held t q.workers
        + answers t q.pending_result_queue
        + answers t q.sent
        + lost t es (new_pool n)
      ≡ received t es + doubled t es (new_pool n)
unfolding new_pool
pool_accounts n es q t h =
    omega
      (arith, run_accounts es (new_pool n) q t (new_pool-IsTracked n) h, held-starting_workers t n)
