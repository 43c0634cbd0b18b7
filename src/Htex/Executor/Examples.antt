-- ===== src/Htex/Executor/Examples.antt =====
-- An executor at concrete calls and messages.
use parsl.Prelude.{ℕ, Bool, true, ◌≡◌, refl, none, some, List, [], ◌∷◌, map, if◌then◌else◌}
use parsl.Htex.Interchange.State.{has, discard}
use parsl.Htex.Executor.{
  unfinished, finished, bad_state, value, ResultMessage, with_result, Executor, returned,
  raised_error, submit, set_bad_state_and_fail_all, Event, submits, polls, handles, happen, run,
  new_executor,
}
use parsl.Htex.Executor.Table.{SoundTable, is_unfinished}
use parsl.Htex.Executor.BadState.{bad_state_fails_all, second_bad_state_raises}
use parsl.Htex.Executor.Reached.{table_is_exact}
use parsl.Htex.Executor.Hangs.{undecodable_result_hangs}
use parsl.Htex.Executor.Batches.{
  Answer, good, message_of, Outstanding, answered, one_each, batch_settles,
}

-- Two tasks are submitted, and the result of the first comes in.
abbrev two_tasks : List Event
two_tasks =
    submits true true ∷ submits true true ∷ polls (with_result 1 (some 9) ∷ []) ∷ handles ∷ []

two_tasks_fine : (run two_tasks new_executor).executor_exception ≡ none
unfolding run
two_tasks_fine = refl

two_tasks_listens : (run two_tasks new_executor).listening ≡ true
unfolding run
two_tasks_listens = refl

first_settled : (run two_tasks new_executor).futures 1 ≡ some (finished (value 9))
unfolding run
first_settled = refl

table_is_exact_example : SoundTable (run two_tasks new_executor)
table_is_exact_example = table_is_exact two_tasks two_tasks_fine two_tasks_listens

-- A task, and a message for it.
abbrev waiting_for : List ResultMessage → Executor
waiting_for ms = run (submits true true ∷ submits true true ∷ polls ms ∷ []) new_executor

waiting_fine : (ms : List ResultMessage) → (waiting_for ms).executor_exception ≡ none
unfolding run
waiting_fine ms = refl

waiting_listens : (ms : List ResultMessage) → (waiting_for ms).listening ≡ true
unfolding run
waiting_listens ms = refl

waiting-SoundTable : (ms : List ResultMessage) → SoundTable (waiting_for ms)
waiting-SoundTable ms =
    table_is_exact (submits true true ∷ submits true true ∷ polls ms ∷ []) (waiting_fine ms)
      (waiting_listens ms)

tasks_of_waiting : (ms : List ResultMessage) → (waiting_for ms).tasks ≡ 1 ∷ 2 ∷ []
unfolding run
tasks_of_waiting ms = refl

bad_state_fails_all_example :
    (ex' : Executor) × (set_bad_state_and_fail_all 5 (waiting_for []) ≡ returned ex')
    × ((k : ℕ)
        → ex'.futures k ≡ (
            if is_unfinished ((waiting_for []).futures k)
            then some (finished (bad_state 5))
            else (waiting_for []).futures k))
    × ((spec_is_valid packs : Bool) → submit spec_is_valid packs ex' ≡ raised_error ex')
bad_state_fails_all_example = bad_state_fails_all 5 (waiting_for []) (waiting-SoundTable [])

second_bad_state_raises_example :
    (ex' : Executor) × (set_bad_state_and_fail_all 5 (waiting_for []) ≡ returned ex')
    × (set_bad_state_and_fail_all 6 ex' ≡ raised_error (record ex' { executor_exception = some 6 }))
second_bad_state_raises_example =
    second_bad_state_raises 5 6 1 (2 ∷ []) (waiting_for []) (waiting-SoundTable [])
      (tasks_of_waiting [])

undecodable_batch : (waiting_for (with_result 2 none ∷ [])).batch ≡ with_result 2 none ∷ []
unfolding run
undecodable_batch = refl

second_is_there : has 2 (waiting_for (with_result 2 none ∷ [])).tasks ≡ true
unfolding run has
second_is_there = refl

undecodable_result_hangs_example :
    (run two_tasks (happen handles (waiting_for (with_result 2 none ∷ [])))).futures 2
    ≡ some unfinished
undecodable_result_hangs_example =
    undecodable_result_hangs 2 [] two_tasks (waiting_for (with_result 2 none ∷ []))
      (waiting-SoundTable (with_result 2 none ∷ [])) (waiting_listens (with_result 2 none ∷ []))
      undecodable_batch second_is_there

abbrev both_answers : List (ℕ × Answer)
both_answers = (2, good 7) ∷ (1, good 8) ∷ []

answers_batch : (waiting_for (map message_of both_answers)).batch ≡ map message_of both_answers
unfolding run
answers_batch = refl

both-Outstanding : Outstanding both_answers (waiting_for (map message_of both_answers)).tasks
unfolding run has discard
both-Outstanding = (refl, (refl, tt))

batch_settles_example :
    SoundTable (run (one_each both_answers) (waiting_for (map message_of both_answers)))
    × ((run (one_each both_answers) (waiting_for (map message_of both_answers))).listening ≡ true)
    × ((run (one_each both_answers) (waiting_for (map message_of both_answers))).batch ≡ [])
    × ((j : ℕ)
        → (run (one_each both_answers) (waiting_for (map message_of both_answers))).futures j
          ≡ answered j both_answers ((waiting_for (map message_of both_answers)).futures j))
batch_settles_example =
    batch_settles both_answers (waiting_for (map message_of both_answers))
      (waiting-SoundTable (map message_of both_answers))
      (waiting_listens (map message_of both_answers)) answers_batch both-Outstanding
