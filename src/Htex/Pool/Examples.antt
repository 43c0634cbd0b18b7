-- ===== src/Htex/Pool/Examples.antt =====
-- A pool of two workers at concrete events.
use parsl.Prelude.{◌+◌, ◌≡◌, refl, none, some, List, [], ◌∷◌}
use parsl.Htex.Pool.{
  Pool, starting, task_result, worker_lost, get_ready, take_task, note_task, execute, die, watch,
  report, forget_task, Event, receive, at_worker, ferry, run, new_pool,
}
use parsl.Htex.Pool.Sums.{hits, held, answers}
use parsl.Htex.Pool.Runs.{received, lost, doubled, pool_accounts}

-- The first worker answers task 7, and the second dies with task 8 and is restarted.
abbrev events : List Event
events =
    receive (7 ∷ 8 ∷ [])
    ∷ at_worker 0 get_ready
    ∷ at_worker 0 take_task
    ∷ at_worker 1 get_ready
    ∷ at_worker 1 take_task
    ∷ at_worker 0 note_task
    ∷ at_worker 1 note_task
    ∷ at_worker 1 execute
    ∷ at_worker 1 die
    ∷ at_worker 0 execute
    ∷ at_worker 0 (report (task_result 7))
    ∷ at_worker 0 forget_task
    ∷ at_worker 1 watch
    ∷ ferry
    ∷ []

abbrev after_events : Pool
after_events = record {
  pending_task_queue = [];
  pending_result_queue = worker_lost 8 ∷ [];
  workers = starting ∷ starting ∷ [];
  tasks_in_progress = none ∷ none ∷ [];
  ready_worker_count = 0;
  sent = task_result 7 ∷ [];
}

events-run : run events (new_pool 2) ≡ some after_events
unfolding run new_pool
events-run = refl

pool_accounts_example :
    hits 8 after_events.pending_task_queue
      + held 8 after_events.workers
      + answers 8 after_events.pending_result_queue
      + answers 8 after_events.sent
      + lost 8 events (new_pool 2)
    ≡ received 8 events + doubled 8 events (new_pool 2)
pool_accounts_example = pool_accounts 2 events after_events 8 events-run
