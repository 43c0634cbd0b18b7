-- ===== src/Jobs/Poller/Limits.antt =====
-- The number of blocks over the turns of parsl/jobs/job_status_poller.py.
use mathlib.Core.Option.{some-injective}
use parsl.Prelude.{
  ℕ, ◌+◌, ◌≤◌, ◌≡◌, refl, ◌∙◌, Option, none, some, List, [], Bool, true, false, arith, subst,
  if_false,
}
use parsl.Jobs.States.{JobState}
use parsl.Jobs.Blocks.{get_entry, BlockProviderExecutor, active_blocks}
use parsl.Jobs.Strategy.{Sizes, StrategyType, ExecutorState, general_strategy, initial_blocks}
use parsl.Jobs.Strategy.Bounds.{general_strategy-IsWithin}
use parsl.Jobs.Poller.{
  Surroundings, poll_if_due, perform, Blocks, then_perform, after_first, strategize, poller_turn,
}
use parsl.Jobs.Poller.Counting.{hit_of, active_blocks_mono}
use parsl.Jobs.Poller.Tables.{Known}
use parsl.Jobs.Poller.Steps.{poll-Known}
use parsl.Jobs.Poller.Growth.{
  GivesKnown, out_of, to_start, perform-Grows, or_same-Grows, initial_out, initial_first,
  general_first, within_out,
}

-- No block that is neither pending nor running becomes so by a poll.
abbrev pub NoRevival : Surroundings → BlockProviderExecutor → Type 0
NoRevival s ex =
    (ex' : BlockProviderExecutor)
    → poll_if_due s.provider_status ex ≡ some ex'
    → (k : ℕ) → hit_of (get_entry k ex'.status) ≤ hit_of (get_entry k ex.status)

abbrev pub new_executor : (has_provider : Bool) → BlockProviderExecutor
new_executor has_provider = record {
  has_provider = has_provider;
  next_block_id = 0;
  blocks_to_job_id = [];
  job_ids_to_block = [];
  status = [];
  simulated_status = [];
}

-- The states after any number of turns.
pub data Ran (max_idletime : ℕ) (kind : StrategyType) (z : Sizes) : Blocks → Type 0 where
  started :
      (has_provider : Bool)
      → Ran max_idletime kind z
          (new_executor has_provider, record { idle_since = none; first = true })
  turned :
      (ex : BlockProviderExecutor) (e : ExecutorState) (s : Surroundings)
      → Ran max_idletime kind z (ex, e)
      → GivesKnown s
      → NoRevival s ex
      → Ran max_idletime kind z (poller_turn max_idletime kind z s (ex, e))

abbrev InLimits : Sizes → Blocks → Type 0
InLimits z b = Known b.0 × (active_blocks b.0.status + to_start z b.1 ≤ z.max_blocks)

second_step :
    (max_idletime : ℕ) (kind : StrategyType) (z : Sizes) (s : Surroundings)
    → (ex : BlockProviderExecutor) (e : ExecutorState) → Known ex
    → GivesKnown s
    → e.first ≡ false
    → active_blocks ex.status ≤ z.max_blocks
    → InLimits z (
        then_perform s
          (general_strategy s.now max_idletime kind z s.tasks (active_blocks ex.status) e)
          ex)
second_step max_idletime kind z s ex e w g f h =
    let decision = general_strategy s.now max_idletime kind z s.tasks (active_blocks ex.status) e in
    let (known, count) =
      or_same-Grows (perform s decision.0 ex) (out_of decision.0) ex w
        (λ ex' p. perform-Grows s decision.0 ex ex' w g p) in
    let room =
      within_out z (active_blocks ex.status) decision.0 h
        (general_strategy-IsWithin s.now max_idletime kind z s.tasks (active_blocks ex.status) e) in
    let over : to_start z decision.1 ≡ 0 =
      if_false z.init_blocks 0
        (general_first s.now max_idletime kind z s.tasks (active_blocks ex.status) e ∙ f) in
    (known, omega arith)

after_first-InLimits :
    (z : Sizes) (f : BlockProviderExecutor → Blocks) (e : ExecutorState)
    (o : Option BlockProviderExecutor)
    → (ex : BlockProviderExecutor) → InLimits z (ex, e)
    → ((ex' : BlockProviderExecutor) → o ≡ some ex' → InLimits z (f ex'))
    → InLimits z (after_first f e o ex)
after_first-InLimits z f e none ex w h = w
after_first-InLimits z f e (some ex') ex w h = h ex' refl

strategize-InLimits :
    (max_idletime : ℕ) (kind : StrategyType) (z : Sizes) (s : Surroundings)
    → (ex : BlockProviderExecutor) (e : ExecutorState) → GivesKnown s
    → InLimits z (ex, e)
    → InLimits z (strategize max_idletime kind z s (ex, e))
unfolding strategize
strategize-InLimits max_idletime kind z s ex e g (w, h) =
    after_first-InLimits z _ e (perform s (initial_blocks z e).0 ex) ex (w, h)
      (λ ex' p.
        let (known, count) = perform-Grows s (initial_blocks z e).0 ex ex' w g p in
        let out = initial_out z e in
        second_step max_idletime kind z s ex' (initial_blocks z e).1 known g (initial_first z e)
          (omega arith))

polled-InLimits :
    (z : Sizes) (o : Option (List ℕ → List JobState)) (ex ex' : BlockProviderExecutor)
    (e : ExecutorState)
    → ((k : ℕ) → hit_of (get_entry k ex'.status) ≤ hit_of (get_entry k ex.status))
    → InLimits z (ex, e)
    → poll_if_due o ex ≡ some ex'
    → InLimits z (ex', e)
polled-InLimits z none ex ex' e steady (w, h) p =
    subst (λ x. InLimits z (x, e)) (some-injective _ _ p) (w, h)
polled-InLimits z (some provider_status) ex ex' e steady (w, h) p =
    let (known, distinct, next) = poll-Known provider_status ex ex' w p in
    let fewer = active_blocks_mono ex.status ex'.status distinct steady in (known, omega arith)

turn-InLimits :
    (max_idletime : ℕ) (kind : StrategyType) (z : Sizes) (s : Surroundings)
    → (ex : BlockProviderExecutor) (e : ExecutorState) → GivesKnown s
    → NoRevival s ex
    → InLimits z (ex, e)
    → InLimits z (poller_turn max_idletime kind z s (ex, e))
unfolding poller_turn
turn-InLimits max_idletime kind z s ex e g r w =
    after_first-InLimits z _ e (poll_if_due s.provider_status ex) ex w (λ ex' p.
      strategize-InLimits max_idletime kind z s ex' e g
        (polled-InLimits z s.provider_status ex ex' e (r ex' p) w p))

Ran-InLimits :
    (max_idletime : ℕ) (kind : StrategyType) (z : Sizes) (b : Blocks)
    → z.init_blocks ≤ z.max_blocks
    → Ran max_idletime kind z b
    → InLimits z b
unfolding active_blocks
Ran-InLimits max_idletime kind z _ enough (started has_provider) =
    (record { statuses = tt; simulated = tt; blocks = tt; jobs = tt }, omega arith)
Ran-InLimits max_idletime kind z _ enough (turned ex e s ran g r) =
    turn-InLimits max_idletime kind z s ex e g r
      (Ran-InLimits max_idletime kind z (ex, e) enough ran)

-- After any number of turns of the poller, whatever the tasks, the launches and the cancellations, an
-- executor has at most `max_blocks` blocks that are pending or running. `init_blocks` is not more than
-- `max_blocks`, no poll makes a block active that was not (`NoRevival`), and the blocks that
-- HighThroughputExecutor gives up were given an id (`GivesKnown`).
pub max_blocks_kept :
    (max_idletime : ℕ) (kind : StrategyType) (z : Sizes) (ex : BlockProviderExecutor)
    (e : ExecutorState)
    → z.init_blocks ≤ z.max_blocks
    → Ran max_idletime kind z (ex, e)
    → active_blocks ex.status ≤ z.max_blocks
max_blocks_kept max_idletime kind z ex e enough ran =
    let (known, limit) = Ran-InLimits max_idletime kind z (ex, e) enough ran in omega arith
