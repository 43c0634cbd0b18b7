-- ===== src/Htex/Affinity.antt =====
-- The cores of a worker: worker of parsl/executors/high_throughput/process_worker_pool.py.
pub mod Slices
pub mod Disjoint
mod Examples
use parsl.Prelude.{
  ℕ, zero, suc, ◌+◌, ◌-◌, ◌*◌, ◌/◌, Option, none, some, List, [], ◌∷◌, ◌++◌, length, take, drop,
  get_elem?, ◌==◌, if◌then◌else◌,
}

-- A part of a list of threads: a number, the first and the last of a range, or another text.
pub data ThreadRange : Type 0 where
  one : ℕ → ThreadRange
  range : ℕ → ℕ → ThreadRange
  other_text : ThreadRange

-- `cpu_affinity`; a list has the ranks for each worker.
pub data CpuAffinity : Type 0 where
  unset block block_reverse alternating unsupported : CpuAffinity
  thread_ranks : List (List ThreadRange) → CpuAffinity

-- The cores that the worker is pinned to. `raises` is an AssertionError or a ValueError.
pub data Pinned : Type 0 where
  not_pinned raises : Pinned
  my_cores : List ℕ → Pinned

-- `cores[start:stop]`
unfoldable pub slice : ℕ → ℕ → List ℕ → List ℕ
slice start stop cores = take (stop - start) (drop start cores)

-- `cores[start::step]`, where `start` are left to pass.
unfoldable pub every : (step start : ℕ) → List ℕ → List ℕ
every step start [] = []
every step zero (c ∷ cores) = c ∷ every step (step - 1) cores
every step (suc start) (c ∷ cores) = every step start cores

-- `range(start, end + 1)`
abbrev pub from_to : ℕ → ℕ → List ℕ
from_to start zero = []
from_to start (suc n) = start ∷ from_to (start + 1) n

unfoldable pub parse_threads : List ThreadRange → List ℕ → Pinned
parse_threads [] cores = my_cores cores
parse_threads (one t ∷ ts) cores = parse_threads ts (cores ++ t ∷ [])
parse_threads (range t u ∷ ts) cores = parse_threads ts (cores ++ from_to t (u + 1 - t))
parse_threads (other_text ∷ ts) cores = raises

abbrev pub of_rank : Option (List ThreadRange) → Pinned
of_rank none = raises
of_rank (some ts) = parse_threads ts []

-- What is done for each affinity, with some cores for each worker.
unfoldable pub cores_by : CpuAffinity → (cores_per_worker pool_size worker_id : ℕ) → List ℕ → Pinned
unfolding slice every parse_threads
cores_by unset n pool_size worker_id cores = not_pinned
cores_by block n pool_size worker_id cores =
    my_cores (slice (n * worker_id) (n * (worker_id + 1)) cores)
cores_by block_reverse n pool_size worker_id cores =
    let cpu_worker_id = pool_size - worker_id - 1 in
    my_cores (slice (n * cpu_worker_id) (n * (cpu_worker_id + 1)) cores)
cores_by alternating n pool_size worker_id cores = my_cores (every pool_size worker_id cores)
cores_by (thread_ranks ranks) n pool_size worker_id cores =
    let found = of_rank (get_elem? ranks worker_id) in
    if length ranks == pool_size then found else raises
cores_by unsupported n pool_size worker_id cores = raises

-- The worker with one of the ids below `pool_size`, on the sorted list of the available cores.
unfoldable pub pin_worker : CpuAffinity → (pool_size worker_id : ℕ) → List ℕ → Pinned
unfolding cores_by
pin_worker unset pool_size worker_id cores = not_pinned
pin_worker affinity pool_size worker_id cores =
    if length cores / pool_size == 0
    then raises
    else cores_by affinity (length cores / pool_size) pool_size worker_id cores
