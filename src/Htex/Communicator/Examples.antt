-- ===== src/Htex/Communicator/Examples.antt =====
-- Turns of Manager.interchange_communicator at concrete times.
use parsl.Prelude.{ℕ, ◌+◌, ◌≤◌, true, false, ◌≡◌, refl, sym, ap, ◌∙◌, none, some, [], ◌∷◌, arith}
use parsl.Htex.Interchange.State.{Interchange, ManagerRecord, get_manager, has}
use parsl.Htex.Interchange.Expire.{expire_bad_managers}
use parsl.Htex.Interchange.Runs.{initial}
use parsl.Htex.Communicator.{
  Clock, from_interchange, nothing, tasks, Communicator, registration, heartbeat, drain,
  new_communicator, next_interesting_event_time, poll_duration, beat, request_drain, handle_polled,
  communicator_turn,
}
use parsl.Htex.Communicator.Beats.{Ran, started, turned, beat_times}
use parsl.Htex.Communicator.Live.{live_manager_is_kept}

abbrev at : ℕ → ℕ → Clock
at t after = record {
  beat_check = t;
  beat_sent = t;
  drain_check = t;
  before_poll = t;
  after_poll = after;
}

-- The manager is to drain after the time 125.
abbrev before_beat : Communicator
before_beat = communicator_turn 30 120 (at 100 125) nothing (new_communicator 100 (some 125))

abbrev after_beat : Communicator
after_beat = communicator_turn 30 120 (at 130 130) (from_interchange (tasks (5 ∷ []))) before_beat

beat_and_drain_test :
    (after_beat.sent ≡ (130, drain) ∷ (130, heartbeat) ∷ (100, registration) ∷ [])
    × (after_beat.last_beat ≡ 130)
    × (after_beat.scheduled ≡ 5 ∷ [])
unfolding communicator_turn new_communicator beat request_drain handle_polled
beat_and_drain_test = (refl, refl, refl)

silence_test : (communicator_turn 30 120 (at 220 220) nothing before_beat).stopped ≡ true
unfolding communicator_turn new_communicator beat request_drain handle_polled
silence_test = refl

two_turns : Ran 30 120 5 100 130 after_beat
unfolding communicator_turn new_communicator beat request_drain handle_polled
    next_interesting_event_time poll_duration
two_turns =
    turned 125 before_beat (at 130 130) (from_interchange (tasks (5 ∷ [])))
      (turned 100 (new_communicator 100 (some 125)) (at 100 125) nothing (started (some 125)) refl
        (omega arith) (omega arith)
        (record {
          sent_after = omega arith;
          drain_after = omega arith;
          poll_after = omega arith;
          soon = omega arith;
          wakes = omega arith;
        }))
      refl (omega arith) (omega arith)
      (record {
        sent_after = omega arith;
        drain_after = omega arith;
        poll_after = omega arith;
        soon = omega arith;
        wakes = omega arith;
      })

-- The heartbeat of 130 has not arrived at 131.
abbrev manager : ManagerRecord
manager = record {
  block_id = 0;
  tasks = [];
  worker_count = 2;
  max_capacity = 2;
  active = true;
  draining = false;
  last_heartbeat = 100;
  idle_since = none;
  packages = [];
}

abbrev with_manager : Interchange
with_manager = record initial { ready_managers = (1, manager) ∷ [] }

sent_beats : beat_times after_beat.sent ≡ 130 ∷ 100 ∷ []
unfolding communicator_turn new_communicator beat request_drain handle_polled
sent_beats = refl

arrived_beats : (b : ℕ) → has b (130 ∷ 100 ∷ []) ≡ true → b + 2 ≤ 131 → b ≤ 100
unfolding has
arrived_beats b h s = ground arith

live_manager_is_kept_example :
    get_manager 1 (expire_bad_managers 131 120 with_manager).ready_managers ≡ some manager
unfolding get_manager
live_manager_is_kept_example =
    live_manager_is_kept 30 120 5 100 130 after_beat two_turns 2 120 131 with_manager 1 manager
      (omega arith) (omega arith) (omega arith) (refl, tt) refl
      (λ b h s. arrived_beats b (ap (has b) (sym sent_beats) ∙ h) s)
