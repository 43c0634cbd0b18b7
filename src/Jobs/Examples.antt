-- ===== src/Jobs/Examples.antt =====
-- Runs of the models of parsl/jobs and of the blocks of executors.
use parsl.Prelude.{
  ℕ, ◌≤◌, true, false, ◌≡◌, refl, Option, none, some, List, [], ◌∷◌, arith, ◌↔◌, map, ◌==◌,
  if◌then◌else◌,
}
use parsl.Jobs.States.{JobState, running, failed, completed, scaled_in}
use parsl.Jobs.Blocks.{BlockProviderExecutor, Statuses}
use parsl.Jobs.Strategy.{Sizes, ExecutorState, htex, scale_in, general_strategy}
use parsl.Jobs.ErrorHandlers.{windowed_error_handler}
use parsl.Jobs.ErrorHandlers.Window.{LastFailed, windowed_error_handler_iff}

-- Block 0 was scaled in, and block 1 runs.
abbrev executor : BlockProviderExecutor
executor = record {
  has_provider = true;
  next_block_id = 2;
  blocks_to_job_id = (0, 70) ∷ (1, 71) ∷ [];
  job_ids_to_block = (70, 0) ∷ (71, 1) ∷ [];
  status = (0, scaled_in) ∷ (1, running) ∷ [];
  simulated_status = (0, scaled_in) ∷ [];
}

-- The batch system takes block 2 only.
abbrev submit : ℕ → Option ℕ
submit id = if id == 2 then some 72 else none

-- The batch system says that all jobs run.
abbrev all_run : List ℕ → List JobState
all_run = map (λ job. running)

polled : BlockProviderExecutor
polled = record executor { status = (0, scaled_in) ∷ (1, running) ∷ [] }

abbrev sizes : Sizes
sizes = record {
  init_blocks = 1;
  min_blocks = 1;
  max_blocks = 5;
  tasks_per_node = 2;
  nodes_per_block = 2;
  parallelism_over = 1;
  parallelism_under = 2;
  is_htex = true;
}

abbrev idle : ExecutorState
idle = record { idle_since = some 100; first = false }

idle_scales_in : (general_strategy 500 120 htex sizes 0 3 idle).0 ≡ scale_in 2
unfolding general_strategy
idle_scales_in = refl

abbrev three_blocks : Statuses
three_blocks = (3, failed) ∷ (1, completed) ∷ (2, failed) ∷ []

windowed_error_handler_iff_example :
    (windowed_error_handler 2 three_blocks ≡ true)
    ↔ ((2 ≤ 3) × LastFailed 2 three_blocks three_blocks)
windowed_error_handler_iff_example =
    windowed_error_handler_iff 2 three_blocks (omega arith)
      ((refl, (refl, tt)), ((refl, tt), (tt, tt)))
