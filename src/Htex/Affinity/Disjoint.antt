-- ===== src/Htex/Affinity/Disjoint.antt =====
-- The workers of parsl/executors/high_throughput/process_worker_pool.py share no core.
use native.Mathlib.Nat.{div-add-mod', mod-lt, div-mul-le_self}
use parsl.Prelude.{
  ℕ, ◌-◌, ◌*◌, ◌/◌, ◌≤◌, ◌<◌, ◌≡◌, ◌≢◌, ◌∙◌, List, length, ◌==◌, true, false, arith, Bool-cases,
  inl, inr, ap, if_false, ==_iff,
}
use parsl.Htex.Interchange.State.{has}
use parsl.Htex.Interchange.Tables.{NoDup}
use parsl.Htex.Affinity.{
  CpuAffinity, unset, unsupported, thread_ranks, block, block_reverse, alternating, my_cores,
  cores_by, pin_worker,
}
use parsl.Htex.Affinity.Slices.{every_disjoint, slice_has_one, every_has_one, either_slices}

-- The cores of a worker are taken from the available ones.
abbrev pub TakesAvailable : CpuAffinity → Type 0
TakesAvailable block = Unit
TakesAvailable block_reverse = Unit
TakesAvailable alternating = Unit
TakesAvailable _ = ⊥

some_each : (len pool_size : ℕ) → 0 < pool_size → pool_size ≤ len → 0 < len / pool_size
some_each len pool_size h k = elim (Bool-cases (len / pool_size == 0)) [
  | inl e ↦ absurd (
      let none_each = (==_iff (len / pool_size) 0).0 e in
      let whole = div-add-mod' len pool_size in
      let rest = mod-lt len h in
      let nothing : 0 * pool_size ≡ 0 = omega arith in
      let product : len / pool_size * pool_size ≡ 0 = ap (λ q. q * pool_size) none_each ∙ nothing in
      omega arith)
  | inr e ↦ ground (arith, e)
]

no_division_by :
    (len pool_size : ℕ) → 0 < pool_size → pool_size ≤ len → (len / pool_size == 0) ≡ false
no_division_by len pool_size h k = let each = some_each len pool_size h k in ground (arith, each)

-- Two workers of a pool that has a core for each at least, with an affinity that takes the available
-- cores: both are pinned, to one core at least, and share none. The available cores are distinct.
pub workers_share_no_core :
    (affinity : CpuAffinity) (pool_size i j : ℕ) (cores : List ℕ)
    → TakesAvailable affinity
    → NoDup cores
    → pool_size ≤ length cores
    → i < pool_size
    → j < pool_size
    → i ≢ j
    → (mine theirs : List ℕ) × (pin_worker affinity pool_size i cores ≡ my_cores mine)
      × (pin_worker affinity pool_size j cores ≡ my_cores theirs)
      × (0 < length mine)
      × ((c : ℕ) → has c mine ≡ true → has c theirs ≡ false)
unfolding pin_worker cores_by
workers_share_no_core block p i j cores a d enough l m n =
    let each = some_each (length cores) p (omega arith) enough in
    let some_cores = no_division_by (length cores) p (omega arith) enough in
    (
      _,
      _,
      if_false _ _ some_cores,
      if_false _ _ some_cores,
      slice_has_one (length cores / p) i p cores each l
          (let all = div-mul-le_self (length cores) p in omega arith),
      λ c t. either_slices (length cores / p) i j c cores d n t,
    )
workers_share_no_core block_reverse p i j cores a d enough l m n =
    let each = some_each (length cores) p (omega arith) enough in
    let some_cores = no_division_by (length cores) p (omega arith) enough in
    (
      _,
      _,
      if_false _ _ some_cores,
      if_false _ _ some_cores,
      slice_has_one (length cores / p) (p - i - 1) p cores each (omega arith)
          (let all = div-mul-le_self (length cores) p in omega arith),
      λ c t.
          either_slices (length cores / p) (p - i - 1) (p - j - 1) c cores d
            (λ same. n (omega arith)) t,
    )
workers_share_no_core alternating p i j cores a d enough l m n =
    let some_cores = no_division_by (length cores) p (omega arith) enough in
    (
      _,
      _,
      if_false _ _ some_cores,
      if_false _ _ some_cores,
      every_has_one p i cores (omega arith),
      λ c t. every_disjoint p i j c cores d l m n t,
    )
workers_share_no_core unset p i j cores a d enough l m n = absurd a
workers_share_no_core unsupported p i j cores a d enough l m n = absurd a
workers_share_no_core (thread_ranks ranks) p i j cores a d enough l m n = absurd a
