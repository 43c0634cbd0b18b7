-- ===== src/Htex/Interchange/Accounting.antt =====
-- How many times a task is in the hands of parsl/executors/high_throughput/interchange.py.
use parsl.Prelude.{
  ℕ, zero, suc, ◌+◌, true, false, ◌≡◌, refl, none, some, List, [], ◌∷◌, ◌++◌, map, take, drop,
  length, ◌≤◌, ◌==◌, if◌then◌else◌, arith, Bool-cases, Option-cases, inl, inr, ap, sym, ◌∙◌, subst,
  ◌≢◌, ==_iff,
}
use mathlib.Core.Option
use mathlib.Core.Option.{some-injective}
use parsl.Htex.Interchange.State.{
  Interchange, Entry, ManagerRecord, Managers, Outcome, result, manager_lost, version_mismatch,
  get_manager, put_manager, pop_manager,
}
use parsl.Htex.Interchange.Queue.{goes_first, insert}
use parsl.Htex.Interchange.Dispatch.{task_ids}
use parsl.Htex.Interchange.Messages.{
  BatchItem, task_result, monitoring, other_item, remove, take_results,
}

abbrev pub hit : ℕ → ℕ → ℕ
hit t x = if x == t then 1 else 0

-- How often the task is in the list.
unfoldable pub occurrences : ℕ → List ℕ → ℕ
occurrences t [] = 0
occurrences t (x ∷ xs) = hit t x + occurrences t xs

-- How often managers hold the task.
unfoldable pub in_flight : ℕ → Managers → ℕ
unfolding occurrences
in_flight t [] = 0
in_flight t ((k, m) ∷ ms) = occurrences t m.tasks + in_flight t ms

abbrev pub answer_hit : ℕ → Outcome → ℕ
answer_hit t (result tid payload) = hit t tid
answer_hit t (manager_lost tid k) = hit t tid
answer_hit t version_mismatch = 0

-- How often a result or a failure of the task has gone to the executor.
unfoldable pub answered : ℕ → List Outcome → ℕ
answered t [] = 0
answered t (o ∷ os) = answer_hit t o + answered t os

-- How often the task is queued, with a manager, or answered.
unfoldable pub accounted : ℕ → Interchange → ℕ
unfolding occurrences in_flight answered
accounted t ix =
    occurrences t (task_ids ix.pending)
    + in_flight t ix.ready_managers
    + answered t ix.results_outgoing

pub occurrences-append :
    (t : ℕ) (xs ys : List ℕ) → occurrences t (xs ++ ys) ≡ occurrences t xs + occurrences t ys
unfolding occurrences
occurrences-append t [] ys = omega arith
occurrences-append t (x ∷ xs) ys = omega (arith, occurrences-append t xs ys)

pub answered-append :
    (t : ℕ) (xs ys : List Outcome) → answered t (xs ++ ys) ≡ answered t xs + answered t ys
unfolding answered
answered-append t [] ys = omega arith
answered-append t (x ∷ xs) ys = omega (arith, answered-append t xs ys)

pub answered-lost :
    (t k : ℕ) (xs : List ℕ) → answered t (map (λ x. manager_lost x k) xs) ≡ occurrences t xs
unfolding answered occurrences
answered-lost t k [] = refl
answered-lost t k (x ∷ xs) = omega (arith, answered-lost t k xs)

pub occurrences-take :
    (t n : ℕ) (l : List Entry)
    → occurrences t (task_ids (take n l)) + occurrences t (task_ids (drop n l))
      ≡ occurrences t (task_ids l)
unfolding occurrences
occurrences-take t zero l = omega arith
occurrences-take t (suc n) [] = omega arith
occurrences-take t (suc n) (x ∷ l) = omega (arith, occurrences-take t n l)

pub occurrences-insert :
    (t : ℕ) (e : Entry) (l : List Entry)
    → occurrences t (task_ids (insert e l)) ≡ hit t e.task_id + occurrences t (task_ids l)
unfolding occurrences insert
occurrences-insert t e [] = refl
occurrences-insert t e (x ∷ l) = elim (Bool-cases (goes_first x e)) [
  | inl h ↦ rw h (omega (arith, occurrences-insert t e l))
  | inr h ↦ rw h refl
]

get_first :
    (i k : ℕ) (x m : ManagerRecord) (ms : Managers)
    → (i == k) ≡ true
    → get_manager k ((i, x) ∷ ms) ≡ some m
    → x ≡ m
unfolding get_manager
get_first i k x m ms e h =
    some-injective _ _ (subst (λ b. (if b then some x else get_manager k ms) ≡ some m) e h)

get_rest :
    (i k : ℕ) (x : ManagerRecord) (ms : Managers)
    → (i == k) ≡ false
    → get_manager k ((i, x) ∷ ms) ≡ get_manager k ms
unfolding get_manager
get_rest i k x ms e = rw e refl

-- A record is changed, comes, and goes.
pub in_flight-put :
    (t k : ℕ) (m n : ManagerRecord) (ms : Managers)
    → get_manager k ms ≡ some m
    → in_flight t (put_manager k n ms) + occurrences t m.tasks
      ≡ in_flight t ms + occurrences t n.tasks
unfolding in_flight get_manager put_manager
in_flight-put t k m n [] h = cc
in_flight-put t k m n ((i, x) ∷ ms) h = elim (Bool-cases (i == k)) [
  | inl e ↦
      rw e (
        omega (arith, ap (λ (r : ManagerRecord). occurrences t r.tasks) (get_first i k x m ms e h)))
  | inr e ↦ rw e (omega (arith, in_flight-put t k m n ms (sym (get_rest i k x ms e) ∙ h)))
]

not_missing :
    (i k : ℕ) (x : ManagerRecord) (ms : Managers)
    → (i == k) ≡ true
    → get_manager k ((i, x) ∷ ms) ≢ none
unfolding get_manager
not_missing i k x ms e h =
    let gone = subst (λ b. (if b then some x else get_manager k ms) ≡ none) e h in cc

pub in_flight-new :
    (t k : ℕ) (n : ManagerRecord) (ms : Managers)
    → get_manager k ms ≡ none
    → in_flight t (put_manager k n ms) ≡ in_flight t ms + occurrences t n.tasks
unfolding in_flight get_manager put_manager
in_flight-new t k n [] h = omega arith
in_flight-new t k n ((i, x) ∷ ms) h = elim (Bool-cases (i == k)) [
  | inl e ↦ absurd (not_missing i k x ms e h)
  | inr e ↦ rw e (omega (arith, in_flight-new t k n ms (sym (get_rest i k x ms e) ∙ h)))
]

pub in_flight-pop :
    (t k : ℕ) (m : ManagerRecord) (ms : Managers)
    → get_manager k ms ≡ some m
    → in_flight t (pop_manager k ms) + occurrences t m.tasks ≡ in_flight t ms
unfolding in_flight get_manager pop_manager
in_flight-pop t k m [] h = cc
in_flight-pop t k m ((i, x) ∷ ms) h = elim (Bool-cases (i == k)) [
  | inl e ↦
      rw e (
        omega (arith, ap (λ (r : ManagerRecord). occurrences t r.tasks) (get_first i k x m ms e h)))
  | inr e ↦ rw e (omega (arith, in_flight-pop t k m ms (sym (get_rest i k x ms e) ∙ h)))
]

none_mapped :
    (x : ℕ) (xs : List ℕ) (u : ℕ) (left : List ℕ)
    → (x == u) ≡ false
    → remove u xs ≡ none
    → remove u (x ∷ xs) ≢ some left
unfolding remove
none_mapped x xs u left e gone h = ground arith

some_mapped :
    (x : ℕ) (xs : List ℕ) (u : ℕ) (left l : List ℕ)
    → (x == u) ≡ false
    → remove u xs ≡ some l
    → remove u (x ∷ xs) ≡ some left
    → x ∷ l ≡ left
unfolding remove
some_mapped x xs u left l e kept h = ground arith

remove-some :
    (t u : ℕ) (xs left : List ℕ)
    → remove u xs ≡ some left
    → occurrences t left + hit t u ≡ occurrences t xs
unfolding occurrences remove
remove-some t u [] left h = cc
remove-some t u (x ∷ xs) left h = elim (Bool-cases (x == u)) [
  | inl e ↦
      let found = some-injective _ _ (
        subst (λ b. (if b then some xs else Option.map (λ ys. x ∷ ys) (remove u xs)) ≡ some left) e
          h) in
      omega (arith, ap (occurrences t) found, ap (hit t) ((==_iff x u).0 e))
  | inr e ↦ elim (Option-cases (remove u xs)) [
    | inl gone ↦ absurd (none_mapped x xs u left e gone h)
    | inr (l, kept) ↦
        omega (
          arith,
          ap (occurrences t) (some_mapped x xs u left l e kept h),
          remove-some t u xs l kept,
        )
  ]
]

pub remove-length : (u : ℕ) (xs left : List ℕ) → remove u xs ≡ some left → length left ≤ length xs
unfolding remove
remove-length u [] left h = cc
remove-length u (x ∷ xs) left h = elim (Bool-cases (x == u)) [
  | inl e ↦
      let found = some-injective _ _ (
        subst (λ b. (if b then some xs else Option.map (λ ys. x ∷ ys) (remove u xs)) ≡ some left) e
          h) in
      omega (arith, ap length found)
  | inr e ↦ elim (Option-cases (remove u xs)) [
    | inl gone ↦ absurd (none_mapped x xs u left e gone h)
    | inr (l, kept) ↦
        omega (arith, ap length (some_mapped x xs u left l e kept h), remove-length u xs l kept)
  ]
]

-- What a batch takes from a manager is what is passed on.
pub take_results-occurrences :
    (t : ℕ) (rs : List BatchItem) (xs : List ℕ)
    → occurrences t (take_results rs xs).0 + answered t (take_results rs xs).1 ≡ occurrences t xs
unfolding answered take_results
take_results-occurrences t [] xs = omega arith
take_results-occurrences t (task_result u p ∷ rs) xs = elim (Option-cases (remove u xs)) [
  | inl h ↦ rw h (take_results-occurrences t rs xs)
  | inr (left, h) ↦
      rw h (omega (arith, take_results-occurrences t rs left, remove-some t u xs left h))
]
take_results-occurrences t (monitoring ∷ rs) xs = take_results-occurrences t rs xs
take_results-occurrences t (other_item ∷ rs) xs = take_results-occurrences t rs xs
