-- ===== src/Htex/Interchange/Turns/Whole.antt =====
-- A whole turn of the main loop of parsl/executors/high_throughput/interchange.py.
use parsl.Prelude.{ℕ, ◌+◌, ◌≡◌, Option, none, some, arith}
use parsl.Htex.Interchange.State.{Interchange, Managers}
use parsl.Htex.Interchange.Dispatch.{Selector, and_then, process_tasks_to_send}
use parsl.Htex.Interchange.Messages.{ManagerMessageIn}
use parsl.Htex.Interchange.Expire.{expire_bad_managers, expire_drained_managers}
use parsl.Htex.Interchange.Loop.{Polled, command_step, incoming_step, message_step, turn}
use parsl.Htex.Interchange.Accounting.{hit, accounted}
use parsl.Htex.Interchange.Turns.{SoundState, Moves, nothing, Moves-then}
use parsl.Htex.Interchange.Turns.Tasks.{stays, incoming-Moves}
use parsl.Htex.Interchange.Turns.Loops.{IsSelector, process_tasks_to_send-Moves}
use parsl.Htex.Interchange.Turns.Leaving.{expire_bad_managers-Moves, expire_drained_managers-Moves}
use parsl.Htex.Interchange.Turns.Asking.{Acceptable, command_step-Moves, message-Moves}

-- How often the task has come in.
abbrev pub arrived : Option (Option ℕ × ℕ) → ℕ → ℕ
arrived none t = 0
arrived (some (priority, u)) t = hit t u

abbrev pub AcceptableIn : Option ManagerMessageIn → Managers → Type 0
AcceptableIn none ms = Unit
AcceptableIn (some m) ms = Acceptable m ms

incoming_step-Moves :
    (incoming : Option (Option ℕ × ℕ)) (ix : Interchange)
    → SoundState ix
    → SoundState (incoming_step incoming ix)
      × ((t : ℕ) → accounted t (incoming_step incoming ix) ≡ accounted t ix + arrived incoming t)
incoming_step-Moves none ix s = (s, λ t. omega arith)
incoming_step-Moves (some (priority, u)) ix s = incoming-Moves priority u ix s

message_step-Moves :
    (now : ℕ) (message : Option ManagerMessageIn) (ix : Interchange)
    → AcceptableIn message ix.ready_managers
    → SoundState ix
    → Moves nothing ix (message_step now message ix)
message_step-Moves now none ix a s = stays ix s
message_step-Moves now (some m) ix a s = message-Moves now m ix a s

-- From a sound state, with a selector that gives interesting managers only, each once, and
-- registrations only of new managers with a block id: a turn ends without an exception, the state
-- is sound again (no manager holds more tasks than its capacity), and no task is lost or doubled:
-- each is queued, with a manager, or answered as often as before, plus its arrivals in this turn.
pub turn_accounts :
    (port threshold : ℕ) (sort_managers : Selector) (polled : Polled) (ix : Interchange)
    → IsSelector sort_managers
    → AcceptableIn polled.message
        (incoming_step polled.incoming
          (command_step port polled.now polled.command ix)).ready_managers
    → SoundState ix
    → (ix' : Interchange) × (turn port threshold sort_managers polled ix ≡ some ix')
      × SoundState ix'
      × ((t : ℕ) → accounted t ix' ≡ accounted t ix + arrived polled.incoming t)
unfolding turn
turn_accounts port threshold sort_managers polled ix law acceptable s =
    let (s1, count1) = command_step-Moves port polled.now polled.command ix s in
    let asked = command_step port polled.now polled.command ix in
    let (s2, count2) = incoming_step-Moves polled.incoming asked s1 in
    let before = incoming_step polled.incoming asked in
    let (last, e, s3, count3) =
      Moves-then nothing before (message_step polled.now polled.message before)
        (λ after.
          and_then (expire_drained_managers (expire_bad_managers polled.now threshold after))
            (process_tasks_to_send sort_managers))
        (message_step-Moves polled.now polled.message before acceptable s2)
        (λ after s4.
          let (s5, count5) = expire_bad_managers-Moves polled.now threshold after s4 in
          let left = expire_bad_managers polled.now threshold after in
          let (final, e6, s6, count6) =
            Moves-then nothing left (expire_drained_managers left)
              (process_tasks_to_send sort_managers) (expire_drained_managers-Moves left s5)
              (λ ready s7. process_tasks_to_send-Moves sort_managers ready law s7) in
          (final, e6, s6, λ t. omega (arith, count6 t, count5 t))) in
    (last, e, s3, λ t. omega (arith, count3 t, count2 t, count1 t))
