-- ===== src/Dataflow/Kernel/Counting.antt =====
-- `task_state_counts` (parsl/dataflow/dflow.py) counts the tasks in each state.
use parsl.Prelude.{
  ℕ, zero, suc, ◌+◌, ◌≡◌, ap, some, List, [], ◌∷◌, ◌++◌, get_elem?, set, arith, if◌then◌else◌,
}
use mathlib.Core.Option.{some-injective}
use parsl.Dataflow.States.{States, same}
use parsl.Dataflow.Record.{TaskRecord, Counts, Context, recount, update_task_state}
use parsl.Dataflow.Keeps.{IsKept, IsKeptByTries}

abbrev pub one : States → States → ℕ
one t s = if same t s then 1 else 0

-- How many tasks are in the state.
unfoldable pub count_status : States → List TaskRecord → ℕ
count_status s [] = 0
count_status s (t ∷ ts) = one t.status s + count_status s ts

-- The counts are those of the other tasks and this one.
abbrev pub Tally : (States → ℕ) → Context → Type 0
Tally others c = (s : States) → c.counts s ≡ others s + one c.task.status s

recount_lem :
    (old new : States) (counts : Counts) (n : ℕ) (s : States)
    → counts s ≡ n + one old s
    → recount old new counts s ≡ n + one new s
unfolding recount
recount_lem old new counts n s h = ground arith

pub Tally-IsKept : (others : States → ℕ) → IsKept (Tally others)
Tally-IsKept others = record {
  state = λ s c p.
      unfold update_task_state in λ x. recount_lem c.task.status s c.counts (others x) x (p x);
  resolve = λ x c p. p;
  edit = λ t c core tries p s. rw core.status (p s);
  queue = λ l c p. p;
}

pub Tally-IsKeptByTries : (others : States → ℕ) → IsKeptByTries (Tally others)
Tally-IsKeptByTries others = record { count = λ t c core p s. rw core.status (p s) }

-- The other tasks' part of a count.
pub count_status-set :
    (s : States) (ts : List TaskRecord) (i : ℕ) (t u : TaskRecord)
    → get_elem? ts i ≡ some t
    → count_status s (set ts i u) + one t.status s ≡ count_status s ts + one u.status s
unfolding count_status
count_status-set s [] i t u h = cc
count_status-set s (x ∷ xs) zero t u h =
    omega (arith, ap (λ (r : TaskRecord). one r.status s) (some-injective _ _ h))
count_status-set s (x ∷ xs) (suc i) t u h = omega (arith, count_status-set s xs i t u h)

pub count_status-append :
    (s : States) (ts : List TaskRecord) (u : TaskRecord)
    → count_status s (ts ++ u ∷ []) ≡ count_status s ts + one u.status s
unfolding count_status
count_status-append s [] u = omega arith
count_status-append s (x ∷ xs) u = omega (arith, count_status-append s xs u)

pub count_status-le :
    (s : States) (ts : List TaskRecord) (i : ℕ) (t : TaskRecord)
    → get_elem? ts i ≡ some t
    → (n : ℕ) × (count_status s ts ≡ n + one t.status s)
unfolding count_status
count_status-le s [] i t h = cc
count_status-le s (x ∷ xs) zero t h =
    let same_status = ap (λ (r : TaskRecord). one r.status s) (some-injective _ _ h) in
    (count_status s xs, omega (arith, same_status))
count_status-le s (x ∷ xs) (suc i) t h =
    let (n, e) = count_status-le s xs i t h in (one x.status s + n, omega arith)
