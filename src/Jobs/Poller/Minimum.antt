-- ===== src/Jobs/Poller/Minimum.antt =====
-- How few blocks a turn of the strategy `simple` leaves (_general_strategy of parsl/jobs/strategy.py).
use parsl.Prelude.{ℕ, ◌+◌, ◌-◌, ◌≤◌, ◌≡◌, refl, min, false, Option, none, some, arith}
use parsl.Jobs.Blocks.{BlockProviderExecutor, active_blocks}
use parsl.Jobs.Strategy.{
  Sizes, simple, ExecutorState, Decision, nothing, scale_out, scale_in, scale_in_idle,
  zero_division, general_strategy, initial_blocks, idle_case, busy_case, spare_case,
}
use parsl.Jobs.Strategy.Bounds.{IsWithin, general_strategy-IsWithin}
use parsl.Jobs.Poller.{Surroundings, or_same, perform, after_first, strategize}
use parsl.Jobs.Poller.Tables.{Known}
use parsl.Jobs.Poller.Shrinking.{is_idle, in_of, perform-Known, perform_shrinks}

initial-is_idle : (z : Sizes) (e : ExecutorState) → is_idle (initial_blocks z e).0 ≡ false
unfolding initial_blocks
initial-is_idle z e = ground arith

initial-in_of : (z : Sizes) (e : ExecutorState) → in_of (initial_blocks z e).0 ≡ 0
unfolding initial_blocks
initial-in_of z e = ground arith

-- The strategy `simple` never asks for a scale in of idle blocks.
simple-is_idle :
    (now max_idletime : ℕ) (z : Sizes) (tasks blocks : ℕ) (e : ExecutorState)
    → is_idle (general_strategy now max_idletime simple z tasks blocks e).0 ≡ false
unfolding general_strategy idle_case busy_case spare_case
simple-is_idle now max_idletime z tasks blocks e = ground arith

within_in :
    (z : Sizes) (blocks : ℕ) (d : Decision)
    → IsWithin z blocks d
    → min z.min_blocks blocks ≤ blocks - in_of d
within_in z blocks nothing w = omega arith
within_in z blocks (scale_out n) w = omega arith
within_in z blocks (scale_in n) w = omega arith
within_in z blocks (scale_in_idle n) w = omega arith
within_in z blocks zero_division w = omega arith

module _ (s : Surroundings) where
  or_same_shrinks :
      (d : Decision) (ex : BlockProviderExecutor)
      → Known ex
      → is_idle d ≡ false
      → active_blocks ex.status ≤ active_blocks (or_same (perform s d ex) ex).status + in_of d
  or_same_shrinks d ex w i = shrinks (perform s d ex) (λ ex' h. perform_shrinks s d ex ex' w i h)
    where
      shrinks :
          (o : Option BlockProviderExecutor)
          → ((ex' : BlockProviderExecutor)
              → o ≡ some ex'
              → active_blocks ex.status ≤ active_blocks ex'.status + in_of d)
          → active_blocks ex.status ≤ active_blocks (or_same o ex).status + in_of d
      shrinks none f = omega arith
      shrinks (some ex') f = f ex' refl

  module _ (max_idletime : ℕ) (z : Sizes) (ex : BlockProviderExecutor) (e : ExecutorState) where
    abbrev decide : BlockProviderExecutor → Decision × ExecutorState
    decide ex' =
        general_strategy s.now max_idletime simple z s.tasks (active_blocks ex'.status)
          (initial_blocks z e).1

    after_shrinks :
        (o : Option BlockProviderExecutor)
        → ((ex' : BlockProviderExecutor)
            → o ≡ some ex'
            → Known ex' × (active_blocks ex.status ≤ active_blocks ex'.status))
        → min z.min_blocks (active_blocks ex.status)
          ≤ active_blocks
              (after_first
                (λ ex'. (or_same (perform s (decide ex').0 ex') ex', (decide ex').1))
                e
                o
                ex).0.status
    after_shrinks none f = omega arith
    after_shrinks (some ex') f =
        let (known, more) = f ex' refl in
        let d = (decide ex').0 in
        omega (
          arith,
          within_in z (active_blocks ex'.status) d (
              general_strategy-IsWithin s.now max_idletime simple z s.tasks
                (active_blocks ex'.status) (initial_blocks z e).1),
          or_same_shrinks d ex' known (
              simple-is_idle s.now max_idletime z s.tasks (active_blocks ex'.status)
                (initial_blocks z e).1),
        )

  -- A turn of the strategy `simple`, whatever the tasks, the launches and the cancellations are: it does
  -- not take the pending and running blocks below `min_blocks`, or below their number where that was
  -- less. The tables are about blocks that were given an id (`Known`).
  pub min_blocks_kept :
      (max_idletime : ℕ) (z : Sizes) (ex : BlockProviderExecutor) (e : ExecutorState)
      → Known ex
      → min z.min_blocks (active_blocks ex.status)
        ≤ active_blocks (strategize max_idletime simple z s (ex, e)).0.status
  unfolding strategize
  min_blocks_kept max_idletime z ex e w =
      after_shrinks max_idletime z ex e (perform s (initial_blocks z e).0 ex) (λ ex' h. (
        perform-Known s (initial_blocks z e).0 ex ex' w (initial-is_idle z e) h,
        let fewer = perform_shrinks s (initial_blocks z e).0 ex ex' w (initial-is_idle z e) h in
            omega (arith, initial-in_of z e),
      ))
