-- ===== src/Jobs/Strategy.antt =====
-- The scaling strategies of parsl/jobs/strategy.py. The parallelism is a fraction of two numbers,
-- and a ratio of slots to tasks is compared exactly, where the source rounds to a float. A time is
-- a number of ticks.
pub mod Bounds
use parsl.Prelude.{
  ℕ, ◌+◌, ◌-◌, ◌*◌, ◌/◌, Bool, true, false, not, ◌&&◌, Option, none, some, ltb, leb, ◌==◌, min,
  if◌then◌else◌,
}

-- What the strategy reads of an executor and its provider. `slots_per_block` is the number of
-- tasks per node times the number of nodes per block.
pub record Sizes : Type 0 where
  pub init_blocks : ℕ
  pub min_blocks : ℕ
  pub max_blocks : ℕ
  pub tasks_per_node : ℕ
  pub nodes_per_block : ℕ
  pub parallelism_over : ℕ
  pub parallelism_under : ℕ
  pub is_htex : Bool

-- 'simple' or 'htex'
pub data StrategyType : Type 0 where
  simple htex : StrategyType

pub record ExecutorState : Type 0 where
  pub idle_since : Option ℕ
  pub first : Bool

-- The call of the executor that ends a turn; the third is scale_in_facade with max_idletime.
-- `zero_division` is the ZeroDivisionError of an executor without slots.
pub data Decision : Type 0 where
  nothing : Decision
  scale_out scale_in scale_in_idle : ℕ → Decision
  zero_division : Decision

abbrev pub slots_per_block : Sizes → ℕ
slots_per_block z = z.tasks_per_node * z.nodes_per_block

-- `math.ceil(a / b)`
unfoldable pub ceil_div : ℕ → ℕ → ℕ
ceil_div a b = (a + (b - 1)) / b

-- (active_slots / active_tasks) < parallelism
abbrev pub overloaded : Sizes → ℕ → ℕ → Bool
overloaded z slots tasks = ltb (slots * z.parallelism_under) (tasks * z.parallelism_over)

-- Case 2b: the blocks to ask for.
unfoldable pub excess_out : Sizes → ℕ → ℕ → ℕ
unfolding ceil_div
excess_out z tasks blocks =
    let slots = blocks * z.tasks_per_node * z.nodes_per_block in
    let excess_slots =
      ceil_div (tasks * z.parallelism_over - slots * z.parallelism_under) z.parallelism_under in
    min (ceil_div excess_slots (slots_per_block z)) (z.max_blocks - blocks)

-- Case 4b: the blocks to give up.
unfoldable pub excess_in : Sizes → ℕ → ℕ → ℕ
excess_in z tasks blocks =
    let slots = blocks * z.tasks_per_node * z.nodes_per_block in
    let excess_slots =
      (slots * z.parallelism_under - tasks * z.parallelism_over) / z.parallelism_under in
    min (excess_slots / slots_per_block z) (blocks - z.min_blocks)

-- The timer of an executor without tasks is started if it is not running.
abbrev pub idle_start : ℕ → Option ℕ → ℕ
idle_start now none = now
idle_start now (some since) = since

unfoldable pub idle_case : ℕ → ℕ → Sizes → ℕ → ExecutorState → Decision × ExecutorState
idle_case now max_idletime z blocks ex =
    let since = idle_start now ex.idle_since in
    if leb blocks z.min_blocks then (nothing, ex) else (
      (if ltb max_idletime (now - since) then scale_in (blocks - z.min_blocks) else nothing),
      record ex { idle_since = some since },
    )

unfoldable pub spare_case : StrategyType → Sizes → ℕ → ℕ → Decision
unfolding excess_in
spare_case simple z tasks blocks = nothing
spare_case htex z tasks blocks =
    if z.is_htex && ltb z.min_blocks blocks
    then scale_in_idle (excess_in z tasks blocks)
    else nothing

unfoldable pub busy_case : StrategyType → Sizes → ℕ → ℕ → Decision
unfolding excess_out spare_case
busy_case kind z tasks blocks =
    let slots = blocks * z.tasks_per_node * z.nodes_per_block in
    if overloaded z slots tasks
    then (if leb z.max_blocks blocks
        then nothing
        else if slots_per_block z == 0
        then zero_division
        else scale_out (excess_out z tasks blocks))
    else if slots == 0
    then (if ltb blocks z.max_blocks then scale_out 1 else nothing)
    else if ltb tasks slots
    then spare_case kind z tasks blocks
    else nothing

-- `_general_strategy` for one executor, after its initial blocks: the number of its outstanding
-- tasks, and of its blocks that are running or pending.
unfoldable pub general_strategy :
    ℕ → ℕ → StrategyType → Sizes → ℕ → ℕ → ExecutorState → Decision × ExecutorState
unfolding idle_case busy_case
general_strategy now max_idletime kind z tasks blocks ex =
    if tasks == 0
    then idle_case now max_idletime z blocks ex
    else (busy_case kind z tasks blocks, record ex { idle_since = none })

-- The first turn scales out by the initial blocks first.
unfoldable pub initial_blocks : Sizes → ExecutorState → Decision × ExecutorState
initial_blocks z ex =
    if ex.first then (scale_out z.init_blocks, record ex { first = false }) else (nothing, ex)
