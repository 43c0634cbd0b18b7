-- ===== src/Htex/Examples.antt =====
-- Runs of the models of parsl/executors/high_throughput.
mod Managers
use parsl.Prelude.{
  inl, ◌↔◌, ℕ, ◌+◌, ◌≤◌, true, false, ◌≡◌, refl, Option, none, some, List, [], ◌∷◌, ◌++◌, length,
  All, arith,
}
use parsl.Htex.Interchange.State.{Interchange, Entry, get_manager, has}
use parsl.Htex.Interchange.Queue.{
  goes_first, process_task_incoming, get_tasks, IsOrdered, CameBefore,
  process_task_incoming-IsOrdered, get_tasks_first,
}
use parsl.Htex.Interchange.Dispatch.{Selector}
use parsl.Htex.Interchange.Messages.{registration}
use parsl.Htex.Interchange.Loop.{Polled, turn, connected_blocks, process_command}
use parsl.Htex.Interchange.Accounting.{accounted}
use parsl.Htex.Interchange.Turns.{SoundState}
use parsl.Htex.Interchange.Turns.Loops.{IsSelector}
use parsl.Htex.Interchange.Turns.Whole.{arrived}
use parsl.Htex.Interchange.Dispatch.{task_ids}
use parsl.Htex.Interchange.State.{ManagerRecord}
use parsl.Htex.Interchange.Accounting.{occurrences, in_flight, answered}
use parsl.Htex.Interchange.Runs.{initial, initial-SoundState, started, turned, exactly_once}
use parsl.Htex.Mpi.{
  MpiTask, MpiTaskScheduler, finished, recursion_error, put_task, schedule_backlog_tasks,
  get_result, result_of, nodes_of,
}
use parsl.Htex.Mpi.Nodes.{put_task_returns}
use parsl.Htex.Mpi.Backlog.{demand, schedule_returns_iff, schedule_drains, get_result_raises}

-- The managers in the order of the set.
abbrev in_order : Selector
in_order ms js = js

in_order-IsSelector : IsSelector in_order
in_order-IsSelector = record { distinct = λ ms js d. d; among = λ ms js j h. h }

-- A manager registers in the turn in which the first task comes in.
abbrev first_polled : Polled
first_polled = record {
  now = 10;
  command = some connected_blocks;
  incoming = some (none, 5);
  message = some (
      registration 1 (record {
        versions_match = true;
        block_id = some 0;
        worker_count = 2;
        max_capacity = 2;
        packages = [];
      }));
}

-- The manager has the task after the turn.
first_turn_sends :
    (ix' : Interchange) × (turn 9000 30 in_order first_polled initial ≡ some ix')
    × (ix'.pending ≡ [])
    × (ix'.count ≡ 1)
unfolding turn
first_turn_sends = (_, refl, refl, refl)

abbrev after_first : Interchange
unfolding turn
after_first = elim (turn 9000 30 in_order first_polled initial) [ none ↦ initial | some ix ↦ ix ]

exactly_once_example :
    ((t : ℕ)
      → occurrences t (task_ids after_first.pending)
          + in_flight t after_first.ready_managers
          + answered t after_first.results_outgoing
        ≡ 0 + arrived (some (none, 5)) t)
    × ((k : ℕ) (m : ManagerRecord)
        → get_manager k after_first.ready_managers ≡ some m
        → length m.tasks ≤ m.max_capacity)
unfolding turn get_manager
exactly_once_example =
    exactly_once 9000 30 in_order (λ t. 0 + arrived (some (none, 5)) t) after_first
      in_order-IsSelector (turned first_polled started ((0, refl), refl) refl)

abbrev entry : Option ℕ → ℕ → Entry
entry priority counter = record { priority = priority; counter = counter; task_id = counter + 10 }

abbrev queue : List Entry
queue = entry (some 1) 2 ∷ entry (some 4) 1 ∷ entry none 0 ∷ []

queue-IsOrdered : IsOrdered queue
queue-IsOrdered = ((inl (omega arith), (inl tt, tt)), ((inl tt, tt), (tt, tt)))

process_task_incoming-IsOrdered_example :
    (let ix = record initial { pending = queue; task_counter = 3 } in
      IsOrdered (process_task_incoming (some 4) 13 ix).pending
      × CameBefore
          (process_task_incoming (some 4) 13 ix).task_counter
          (process_task_incoming (some 4) 13 ix).pending)
process_task_incoming-IsOrdered_example =
    process_task_incoming-IsOrdered (some 4) 13
      (record initial { pending = queue; task_counter = 3 })
      (omega arith, (omega arith, (omega arith, tt))) queue-IsOrdered

abbrev needing : ℕ → ℕ → MpiTask
needing n task_id = record { task_id = task_id; num_nodes = n }

-- Three free nodes, and two tasks that wait.
abbrev two_waiting : MpiTaskScheduler
two_waiting = record {
  free_node_counter = 3;
  nodes_q = 21 ∷ 22 ∷ 23 ∷ [];
  backlog_queue = needing 1 5 ∷ needing 2 6 ∷ [];
  map_tasks_to_nodes = [];
  pending_task_q = [];
}

-- Task 1 runs on both nodes, and a task waits for four.
abbrev too_large_waits : MpiTaskScheduler
too_large_waits = record {
  free_node_counter = 0;
  nodes_q = [];
  backlog_queue = needing 4 9 ∷ [];
  map_tasks_to_nodes = (1, 21 ∷ 22 ∷ []) ∷ [];
  pending_task_q = [];
}

schedule_returns_iff_example :
    ((depth : ℕ) × (s' : MpiTaskScheduler) × (schedule_backlog_tasks depth two_waiting
        ≡ finished s'))
    ↔ (demand two_waiting.backlog_queue ≤ 3)
schedule_returns_iff_example =
    schedule_returns_iff two_waiting refl (omega arith, (omega arith, tt))
      ((omega arith, tt), (tt, tt))

schedule_drains_example :
    (s' : MpiTaskScheduler) × (schedule_backlog_tasks 3 two_waiting ≡ finished s')
    × (s'.backlog_queue ≡ [])
    × (s'.free_node_counter + demand two_waiting.backlog_queue ≡ 3)
    × (s'.free_node_counter ≡ length s'.nodes_q)
    × (length s'.pending_task_q ≡ 2)
unfolding demand
schedule_drains_example =
    schedule_drains 3 two_waiting refl (omega arith, (omega arith, tt)) (omega arith) (omega arith)
