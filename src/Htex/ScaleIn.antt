-- ===== src/Htex/ScaleIn.antt =====
-- HighThroughputExecutor.scale_in of parsl/executors/high_throughput/executor.py. A block, a job and a
-- manager are ids, and a time is a number of ticks.
pub mod Infos
pub mod Chosen
mod Examples
use parsl.Prelude.{
  ℕ, zero, suc, ◌+◌, Bool, true, false, not, ◌&&◌, ◌||◌, Option, none, some, List, [], ◌∷◌, ◌++◌,
  map, length, take, ltb, ◌==◌, min, if◌then◌else◌,
}
use parsl.Htex.Interchange.Loop.{ManagerInfo}
use parsl.Jobs.States.{is_terminal}
use parsl.Jobs.Blocks.{Statuses, get_entry, get_all, filter_scale_in_ids, bind_option}

-- The tasks of a block, and the shortest idle time of its managers, `none` for infinity.
pub record BlockInfo : Type 0 where
  pub tasks : ℕ
  pub idle : Option ℕ

abbrev pub new_block_info : BlockInfo
new_block_info = record { tasks = 0; idle = none }

-- `block_info[k]` of the defaultdict, changed by `f`.
unfoldable pub upsert : ℕ → (BlockInfo → BlockInfo) → List (ℕ × BlockInfo) → List (ℕ × BlockInfo)
upsert k f [] = (k, f new_block_info) ∷ []
upsert k f ((j, i) ∷ d) = if j == k then (j, f i) ∷ d else (j, i) ∷ upsert k f d

abbrev pub shortest : Option ℕ → ℕ → Option ℕ
shortest none t = some t
shortest (some s) t = some (min s t)

abbrev pub plus_manager : ManagerInfo → BlockInfo → BlockInfo
plus_manager m i = record { tasks = i.tasks + m.tasks; idle = shortest i.idle m.idle_duration }

unfoldable pub known_blocks : Statuses → List (ℕ × BlockInfo) → List (ℕ × BlockInfo)
unfolding upsert is_terminal
known_blocks [] d = d
known_blocks ((k, s) ∷ status) d =
    known_blocks status (if is_terminal s then d else upsert k (λ i. new_block_info) d)

unfoldable pub with_managers : List ManagerInfo → List (ℕ × BlockInfo) → List (ℕ × BlockInfo)
unfolding upsert
with_managers [] d = d
with_managers (m ∷ ms) d =
    with_managers ms (if m.active then upsert m.block_id (plus_manager m) d else d)

-- The key `(-idle, tasks)` of one block is less than that of another.
abbrev pub longer : Option ℕ → Option ℕ → Bool
longer none none = false
longer none (some t) = true
longer (some s) none = false
longer (some s) (some t) = ltb t s

abbrev pub key_less : BlockInfo → BlockInfo → Bool
key_less i j =
    if longer i.idle j.idle
    then true
    else if longer j.idle i.idle
    then false
    else ltb i.tasks j.tasks

-- A step of `sorted`, which keeps the order of blocks with one key.
unfoldable pub insert_block : ℕ × BlockInfo → List (ℕ × BlockInfo) → List (ℕ × BlockInfo)
insert_block b [] = b ∷ []
insert_block b (c ∷ d) = if key_less c.1 b.1 then c ∷ insert_block b d else b ∷ c ∷ d

unfoldable pub sorted_blocks : List (ℕ × BlockInfo) → List (ℕ × BlockInfo)
unfolding insert_block
sorted_blocks [] = []
sorted_blocks (b ∷ d) = insert_block b (sorted_blocks d)

abbrev pub is_idle : ℕ → BlockInfo → Bool
is_idle max_idletime i = longer i.idle (some max_idletime) && (i.tasks == 0)

-- The loop over the sorted blocks, with the number of blocks found so far.
unfoldable pub idle_blocks : ℕ → ℕ → ℕ → List (ℕ × BlockInfo) → List ℕ
idle_blocks max_idletime blocks n [] = []
idle_blocks max_idletime blocks n ((k, i) ∷ d) =
    let next = idle_blocks max_idletime blocks (if is_idle max_idletime i then n + 1 else n) d in
    if is_idle max_idletime i then k ∷ (if n + 1 == blocks then [] else next) else next

abbrev pub select_blocks : Option ℕ → ℕ → List (ℕ × BlockInfo) → List ℕ
select_blocks none blocks d = map (λ (b : ℕ × BlockInfo). b.0) (take blocks d)
select_blocks (some max_idletime) blocks d = idle_blocks max_idletime blocks 0 d

unfoldable pub block_ids_to_kill : Option ℕ → ℕ → Statuses → List ManagerInfo → List ℕ
unfolding known_blocks with_managers sorted_blocks idle_blocks
block_ids_to_kill max_idletime blocks status managers =
    select_blocks max_idletime blocks
      (sorted_blocks (with_managers managers (known_blocks status [])))

-- `_hold_block`: the managers of the block, which are put on hold.
unfoldable pub hold_block : ℕ → List ManagerInfo → List ℕ
hold_block k [] = []
hold_block k (m ∷ ms) = if m.block_id == k then m.manager ∷ hold_block k ms else hold_block k ms

unfoldable pub hold_blocks : List ℕ → List ManagerInfo → List ℕ
unfolding hold_block
hold_blocks [] managers = []
hold_blocks (k ∷ ks) managers = hold_block k managers ++ hold_blocks ks managers

-- `[d[k] for k in ks if k in d]`
unfoldable pub present : List ℕ → List (ℕ × ℕ) → List ℕ
unfolding get_entry
present [] d = []
present (k ∷ ks) d = elim (get_entry k d) [ none ↦ present ks d | some job ↦ job ∷ present ks d ]

-- The managers that are put on hold, and the ids of the blocks that the provider has cancelled; `none`
-- is an exception.
unfoldable pub scale_in :
    (List ℕ → List Bool)
    → Option ℕ
    → ℕ
    → Statuses
    → List ManagerInfo
    → List (ℕ × ℕ)
    → List (ℕ × ℕ)
    → Option (List ℕ × List ℕ)
unfolding block_ids_to_kill hold_blocks present get_all filter_scale_in_ids
scale_in cancel max_idletime blocks status managers blocks_to_job_id job_ids_to_block =
    let ids = block_ids_to_kill max_idletime blocks status managers in
    let to_kill = present ids blocks_to_job_id in
    bind_option (filter_scale_in_ids to_kill (cancel to_kill)) λ job_ids.
      bind_option (get_all job_ids job_ids_to_block)
        λ killed. some (hold_blocks ids managers, killed)
