-- ===== src/Htex/Pool/Sums.antt =====
-- How often a task is in the queues and in the hands of workers, and the sums over lists of workers.
use parsl.Prelude.{
  ℕ, zero, suc, ◌+◌, ◌≡◌, refl, ap, ◌∙◌, sym, Option, none, some, List, [], ◌∷◌, ◌++◌, map, ◌==◌,
  if◌then◌else◌, get_elem?, set, arith,
}
use mathlib.Core.Option.{some-injective}
use parsl.Htex.Pool.{
  Worker, starting, waiting, fetched, noted, executing, reported, dead, PoolResult, result_task,
}

abbrev pub hit : ℕ → ℕ → ℕ
hit t u = if u == t then 1 else 0

abbrev pub hits : ℕ → List ℕ → ℕ
hits t [] = 0
hits t (u ∷ us) = hit t u + hits t us

abbrev pub answers : ℕ → List PoolResult → ℕ
answers t [] = 0
answers t (r ∷ rs) = hit t (result_task r) + answers t rs

-- Whether the worker has a task that it or the watchdog has still to answer.
abbrev pub noted_hit : ℕ → Option ℕ → ℕ
noted_hit t none = 0
noted_hit t (some u) = hit t u

abbrev pub holds : ℕ → Worker → ℕ
holds t starting = 0
holds t waiting = 0
holds t (fetched u) = hit t u
holds t (noted u) = hit t u
holds t (executing u) = hit t u
holds t (reported u) = 0
holds t (dead o) = noted_hit t o

abbrev pub held : ℕ → List Worker → ℕ
held t [] = 0
held t (w ∷ ws) = holds t w + held t ws

-- What `tasks_in_progress` has of a worker.
abbrev pub tracked : Worker → Option ℕ
tracked starting = none
tracked waiting = none
tracked (fetched u) = none
tracked (noted u) = some u
tracked (executing u) = some u
tracked (reported u) = some u
tracked (dead o) = o

pub hits-append : (t : ℕ) (us vs : List ℕ) → hits t (us ++ vs) ≡ hits t us + hits t vs
hits-append t [] vs = omega arith
hits-append t (u ∷ us) vs = omega (arith, hits-append t us vs)

pub answers-append :
    (t : ℕ) (rs qs : List PoolResult) → answers t (rs ++ qs) ≡ answers t rs + answers t qs
answers-append t [] qs = omega arith
answers-append t (r ∷ rs) qs = omega (arith, answers-append t rs qs)

pub held-set :
    (t i : ℕ) (w v : Worker) (ws : List Worker)
    → get_elem? ws i ≡ some w
    → held t (set ws i v) + holds t w ≡ held t ws + holds t v
held-set t i w v [] h = cc
held-set t zero w v (x ∷ ws) h = let same = ap (holds t) (some-injective _ _ h) in omega arith
held-set t (suc i) w v (x ∷ ws) h = omega (arith, held-set t i w v ws h)

pub tracked-set :
    (i : ℕ) (v : Worker) (ws : List Worker)
    → map tracked (set ws i v) ≡ set (map tracked ws) i (tracked v)
tracked-set i v [] = refl
tracked-set zero v (x ∷ ws) = refl
tracked-set (suc i) v (x ∷ ws) = ap (λ us. tracked x ∷ us) (tracked-set i v ws)

pub tracked-set_same :
    (i : ℕ) (w v : Worker) (ws : List Worker)
    → get_elem? ws i ≡ some w
    → tracked v ≡ tracked w
    → map tracked (set ws i v) ≡ map tracked ws
tracked-set_same i w v [] h e = refl
tracked-set_same zero w v (x ∷ ws) h e =
    ap (λ o. o ∷ map tracked ws) (e ∙ ap tracked (sym (some-injective _ _ h)))
tracked-set_same (suc i) w v (x ∷ ws) h e =
    ap (λ us. tracked x ∷ us) (tracked-set_same i w v ws h e)

pub get-tracked :
    (i : ℕ) (w : Worker) (ws : List Worker)
    → get_elem? ws i ≡ some w
    → get_elem? (map tracked ws) i ≡ some (tracked w)
get-tracked i w [] h = cc
get-tracked zero w (x ∷ ws) h = ap (λ y. some (tracked y)) (some-injective _ _ h)
get-tracked (suc i) w (x ∷ ws) h = get-tracked i w ws h
