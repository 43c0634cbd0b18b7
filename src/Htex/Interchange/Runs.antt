-- ===== src/Htex/Interchange/Runs.antt =====
-- The states that the main loop of parsl/executors/high_throughput/interchange.py reaches.
use mathlib.Core.Option.{some-injective}
use parsl.Prelude.{ℕ, ◌+◌, ◌≤◌, false, ◌≡◌, refl, some, [], length, sym, ◌∙◌, ap, subst, arith}
use parsl.Htex.Interchange.State.{Interchange, ManagerRecord, get_manager, has}
use parsl.Htex.Interchange.Dispatch.{Selector}
use parsl.Htex.Interchange.Loop.{Polled, command_step, incoming_step, turn}
use parsl.Htex.Interchange.Accounting.{accounted, occurrences, in_flight, answered}
use parsl.Htex.Interchange.Turns.{SoundState}
use parsl.Htex.Interchange.Turns.Loops.{IsSelector}
use parsl.Htex.Interchange.Turns.Whole.{AcceptableIn, arrived, turn_accounts}
use parsl.Htex.Interchange.Dispatch.{task_ids}

abbrev pub initial : Interchange
initial = record {
  pending = [];
  task_counter = 0;
  count = 0;
  ready_managers = [];
  connected_block_history = [];
  interesting = [];
  to_managers = [];
  results_outgoing = [];
  killed = false;
}

-- The state after some turns, with how often each task has come in. Registrations come from new
-- managers with a block id.
pub data Ran (port threshold : ℕ) (sort_managers : Selector) : (ℕ → ℕ) → Interchange → Type 0 where
  started : Ran port threshold sort_managers (λ t. 0) initial
  turned :
      {arrivals : ℕ → ℕ} {ix ix' : Interchange} (polled : Polled)
      → Ran port threshold sort_managers arrivals ix
      → AcceptableIn polled.message
          (incoming_step polled.incoming
            (command_step port polled.now polled.command ix)).ready_managers
      → turn port threshold sort_managers polled ix ≡ some ix'
      → Ran port threshold sort_managers (λ t. arrivals t + arrived polled.incoming t) ix'

pub initial-SoundState : SoundState initial
unfolding has get_manager
initial-SoundState = record { unique = tt; nodup = tt; known = λ j h. cc; within = λ j m h. cc }

initial-accounted : (t : ℕ) → accounted t initial ≡ 0
unfolding accounted
initial-accounted t = refl

module _ (port threshold : ℕ) (sort_managers : Selector) (law : IsSelector sort_managers) where
  Ran-accounted :
      {arrivals : ℕ → ℕ} {ix : Interchange}
      → Ran port threshold sort_managers arrivals ix
      → SoundState ix × ((t : ℕ) → accounted t ix ≡ arrivals t)
  Ran-accounted started = (initial-SoundState, initial-accounted)
  Ran-accounted (turned {arrivals} {ix} {ix'} polled before acceptable e) =
      let (s, count) = Ran-accounted before in
      let (last, e', s', count') =
        turn_accounts port threshold sort_managers polled ix law acceptable s in
      let same_state = some-injective _ _ (sym e' ∙ e) in
      (
        subst SoundState same_state s',
        λ t. sym (ap (accounted t) same_state) ∙ omega (arith, count' t, count t),
      )

-- With a selector that gives interesting managers only, each once: in every state that the loop
-- reaches each task is queued, with a registered manager, or answered exactly as often, taken
-- together, as it has come in, and a registered manager holds at most as many tasks as it can.
pub exactly_once :
    (port threshold : ℕ) (sort_managers : Selector) (arrivals : ℕ → ℕ) (ix : Interchange)
    → IsSelector sort_managers
    → Ran port threshold sort_managers arrivals ix
    → ((t : ℕ)
        → occurrences t (task_ids ix.pending)
            + in_flight t ix.ready_managers
            + answered t ix.results_outgoing
          ≡ arrivals t)
      × ((k : ℕ) (m : ManagerRecord)
          → get_manager k ix.ready_managers ≡ some m
          → length m.tasks ≤ m.max_capacity)
unfolding accounted
exactly_once port threshold sort_managers arrivals ix law r =
    let (s, count) = Ran-accounted port threshold sort_managers law r in (count, s.within)
