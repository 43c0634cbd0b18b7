-- ===== src/Jobs/Poller.antt =====
-- A turn of parsl/jobs/job_status_poller.py for one executor: the poll of its blocks, and then
-- _general_strategy of parsl/jobs/strategy.py with the call that it ends in.
pub mod Limits
pub mod Shrinking
pub mod Minimum
pub mod Counting
pub mod Tables
pub mod Steps
pub mod Growth
mod Examples
use mathlib.Core.Option
use parsl.Prelude.{ℕ, Bool, true, false, Option, none, some, List, [], ◌∷◌, if◌then◌else◌}
use parsl.Jobs.States.{JobState}
use parsl.Jobs.Blocks.{
  BlockProviderExecutor, scale_out_facade, scale_in_facade, mark_scaled_in, poll_facade,
  active_blocks,
}
use parsl.Jobs.Strategy.{
  Sizes, StrategyType, ExecutorState, Decision, nothing, scale_out, scale_in, scale_in_idle,
  zero_division, general_strategy, initial_blocks,
}

-- What a turn meets: the job ids that the provider gives to new blocks, the jobs that it cancels, the
-- blocks that the scale_in of HighThroughputExecutor gives up (or its exception), what the provider says
-- of the jobs if the polling interval is over, the number of outstanding tasks, and the time.
pub record Surroundings : Type 0 where
  pub submit : ℕ → Option ℕ
  pub cancel : List ℕ → List Bool
  pub idle_blocks : ℕ → BlockProviderExecutor → Option (List ℕ)
  pub provider_status : Option (List ℕ → List JobState)
  pub tasks : ℕ
  pub now : ℕ

-- An exception ends the turn and leaves the blocks as they were: each of these calls raises before it
-- changes them.
abbrev pub or_same : Option BlockProviderExecutor → BlockProviderExecutor → BlockProviderExecutor
or_same none ex = ex
or_same (some ex') ex = ex'

abbrev pub poll_if_due :
    Option (List ℕ → List JobState) → BlockProviderExecutor → Option BlockProviderExecutor
poll_if_due none ex = some ex
poll_if_due (some provider_status) ex = poll_facade provider_status ex

unfoldable pub perform :
    Surroundings → Decision → BlockProviderExecutor → Option BlockProviderExecutor
unfolding scale_out_facade scale_in_facade mark_scaled_in
perform s nothing ex = some ex
perform s (scale_out n) ex = scale_out_facade s.submit n ex
perform s (scale_in n) ex = scale_in_facade s.cancel n ex
perform s (scale_in_idle n) ex = Option.map (λ ks. mark_scaled_in ks ex) (s.idle_blocks n ex)
perform s zero_division ex = none

abbrev pub Blocks : Type 0
Blocks = BlockProviderExecutor × ExecutorState

abbrev pub then_perform : Surroundings → Decision × ExecutorState → BlockProviderExecutor → Blocks
then_perform s (d, e) ex = (or_same (perform s d ex) ex, e)

-- `_general_strategy`; an exception in the start of the initial blocks ends the turn at once.
abbrev pub after_first :
    (BlockProviderExecutor → Blocks)
    → ExecutorState
    → Option BlockProviderExecutor
    → BlockProviderExecutor
    → Blocks
after_first f e none ex = (ex, e)
after_first f e (some ex') ex = f ex'

unfoldable pub strategize :
    (max_idletime : ℕ) → StrategyType → Sizes → Surroundings → Blocks → Blocks
unfolding general_strategy initial_blocks perform active_blocks
strategize max_idletime kind z s (ex, e) =
    let first = initial_blocks z e in
    after_first
      (λ ex'.
        then_perform s
          (general_strategy s.now max_idletime kind z s.tasks (active_blocks ex'.status) first.1)
          ex')
      e (perform s first.0 ex) ex

unfoldable pub poller_turn :
    (max_idletime : ℕ) → StrategyType → Sizes → Surroundings → Blocks → Blocks
unfolding poll_facade strategize
poller_turn max_idletime kind z s (ex, e) =
    after_first (λ polled. strategize max_idletime kind z s (polled, e)) e
      (poll_if_due s.provider_status ex) ex
