-- ===== src/Jobs/Poller/Examples.antt =====
-- Turns of the poller with concrete blocks.
use parsl.Prelude.{
  ℕ, ◌+◌, ◌≤◌, min, true, false, ◌≡◌, refl, Option, none, some, [], ◌∷◌, arith, map, subst,
}
use mathlib.Core.Option.{some-injective}
use parsl.Jobs.States.{JobState, pending, running, held}
use parsl.Jobs.Blocks.{get_entry, BlockProviderExecutor, active_blocks}
use parsl.Jobs.Strategy.{Sizes, simple, ExecutorState}
use parsl.Jobs.Poller.{Surroundings, Blocks, poller_turn, strategize}
use parsl.Jobs.Poller.Tables.{Known}
use parsl.Jobs.Poller.Minimum.{min_blocks_kept}
use parsl.Jobs.Poller.Counting.{hit_of}
use parsl.Jobs.Poller.Limits.{started, turned, new_executor, NoRevival, max_blocks_kept}

abbrev sizes : ℕ → Sizes
sizes max_blocks = record {
  init_blocks = 1;
  min_blocks = 0;
  max_blocks = max_blocks;
  tasks_per_node = 2;
  nodes_per_block = 2;
  parallelism_over = 1;
  parallelism_under = 2;
  is_htex = false;
}

-- Ten tasks are outstanding, and all jobs are in one state if they are polled.
abbrev turn_with : Option JobState → Surroundings
turn_with state = record {
  submit = λ id. some (id + 70);
  cancel = map (λ job. true);
  idle_blocks = λ n ex. none;
  provider_status = elim state [ none ↦ none | some x ↦ some (map (λ job. x)) ];
  tasks = 10;
  now = 100;
}

abbrev first_turn : ℕ → Blocks
first_turn max_blocks =
    poller_turn 120 simple (sizes max_blocks) (turn_with none)
      (new_executor true, record { idle_since = none; first = true })

two_started_test : (first_turn 5).0.status ≡ (0, pending) ∷ (1, pending) ∷ []
unfolding poller_turn
two_started_test = refl

-- A block that is held is not counted, another one is started, and then both run: with `max_blocks` 1
-- two blocks are active.
held_test :
    active_blocks
      (poller_turn 120 simple
        (sizes 1)
        (turn_with (some running))
        (poller_turn 120 simple (sizes 1) (turn_with (some held)) (first_turn 1))).0.status
    ≡ 2
unfolding poller_turn
held_test = refl

quiet :
    (ex ex' : BlockProviderExecutor)
    → some ex ≡ some ex'
    → (k : ℕ) → hit_of (get_entry k ex'.status) ≤ hit_of (get_entry k ex.status)
quiet ex ex' p k =
    subst
      (λ (x : BlockProviderExecutor).
        hit_of (get_entry k x.status) ≤ hit_of (get_entry k ex.status))
      (some-injective _ _ p) (omega arith)

abbrev both_pending : BlockProviderExecutor
both_pending = (first_turn 5).0

stays_active :
    (k : ℕ)
    → hit_of (get_entry k ((0, running) ∷ (1, running) ∷ []))
      ≤ hit_of (get_entry k ((0, pending) ∷ (1, pending) ∷ []))
unfolding get_entry
stays_active k = ground arith

now_running : NoRevival (turn_with (some running)) both_pending
unfolding poller_turn
now_running ex' p k =
    subst
      (λ (x : BlockProviderExecutor).
        hit_of (get_entry k x.status) ≤ hit_of (get_entry k both_pending.status))
      (some-injective _ _ p) (stays_active k)

abbrev second_turn : Blocks
second_turn = poller_turn 120 simple (sizes 5) (turn_with (some running)) (first_turn 5)

max_blocks_kept_example : active_blocks second_turn.0.status ≤ 5
max_blocks_kept_example =
    max_blocks_kept 120 simple (sizes 5) second_turn.0 second_turn.1 (omega arith) (
      turned both_pending (first_turn 5).1 (turn_with (some running))
        (turned (new_executor true) (record { idle_since = none; first = true }) (turn_with none)
          (started true) (λ n ex ks p. cc) (quiet (new_executor true)))
        (λ n ex ks p. cc) now_running)

-- Three blocks run, and nothing has been done for longer than allowed.
abbrev three_running : BlockProviderExecutor
three_running = record {
  has_provider = true;
  next_block_id = 3;
  blocks_to_job_id = (0, 70) ∷ (1, 71) ∷ (2, 72) ∷ [];
  job_ids_to_block = (70, 0) ∷ (71, 1) ∷ (72, 2) ∷ [];
  status = (0, running) ∷ (1, running) ∷ (2, running) ∷ [];
  simulated_status = [];
}

abbrev no_tasks : Surroundings
no_tasks = record (turn_with none) { tasks = 0; now = 500 }

abbrev one_at_least : Sizes
one_at_least = record (sizes 5) { min_blocks = 1 }

abbrev long_idle : ExecutorState
long_idle = record { idle_since = some 100; first = false }

three_running-Known : Known three_running
three_running-Known = record {
  statuses = (omega arith, (omega arith, (omega arith, tt)));
  simulated = tt;
  blocks = (omega arith, (omega arith, (omega arith, tt)));
  jobs = (omega arith, (omega arith, (omega arith, tt)));
}

min_blocks_kept_example :
    min 1 (active_blocks three_running.status)
    ≤ active_blocks
        (strategize 120 simple one_at_least no_tasks (three_running, long_idle)).0.status
min_blocks_kept_example =
    min_blocks_kept no_tasks 120 one_at_least three_running long_idle three_running-Known

one_left_test :
    active_blocks (strategize 120 simple one_at_least no_tasks (three_running, long_idle)).0.status
    ≡ 1
unfolding strategize
one_left_test = refl
