-- ===== src/Htex/Executor/Reached.antt =====
-- The table and the futures in every state that an executor reaches
-- (parsl/executors/high_throughput/executor.py).
use parsl.Prelude.{
  ℕ, ◌+◌, Bool, true, false, ◌≡◌, refl, Option, none, some, List, [], ◌∷◌, ◌++◌, if◌then◌else◌,
}
use parsl.Htex.Interchange.State.{has, discard}
use parsl.Htex.Executor.{
  FutureValue, FutureState, unfinished, finished, ResultMessage, with_result, with_exception,
  with_neither, interchange_exception, bad_message, Executor, set_future, Call, returned,
  raised_error, after_call, submit, finish, finish_as, handle_message, decoded_value,
  bad_state_is_set, next_state, handle_first, poll_batch, Event, submits, polls, handles,
  error_handler, happen, run, new_executor,
}
use parsl.Htex.Executor.Table.{SoundTable, other-SoundTable, register-SoundTable}
use parsl.Htex.Executor.Outstanding.{
  Holds, bad_state_left, handle_message-AfterCall, next_state-Holds,
}

-- A bad state stays.
abbrev StaysBad : Executor → Executor → Type 0
StaysBad ex n = n.executor_exception ≡ none → ex.executor_exception ≡ none

StaysBad-if :
    (b : Bool) (ex : Executor) (c d : Call)
    → StaysBad ex (after_call c)
    → StaysBad ex (after_call d)
    → StaysBad ex (after_call (if b then c else d))
StaysBad-if true ex c d p q = p
StaysBad-if false ex c d p q = q

finish-StaysBad :
    (k : ℕ) (v : FutureValue) (ex : Executor) → StaysBad ex (after_call (finish k v ex))
unfolding finish
finish-StaysBad k v ex = by_future (ex.futures k)
  where
    by_future : (o : Option FutureState) → StaysBad ex (after_call (finish_as o k v ex))
    by_future none e = e
    by_future (some unfinished) e = e
    by_future (some (finished w)) e = e

handle_message-StaysBad :
    (m : ResultMessage) (ex : Executor) → StaysBad ex (after_call (handle_message m ex))
unfolding handle_message
handle_message-StaysBad (with_result k none) ex =
    StaysBad-if (has k ex.tasks) ex _ (raised_error ex) (λ e. e) (λ e. e)
handle_message-StaysBad (with_result k (some v)) ex =
    StaysBad-if (has k ex.tasks) ex _ (raised_error ex)
      (finish-StaysBad k _ (record ex { tasks = discard k ex.tasks })) (λ e. e)
handle_message-StaysBad (with_exception k d) ex =
    StaysBad-if (has k ex.tasks) ex _ (raised_error ex)
      (finish-StaysBad k (decoded_value d) (record ex { tasks = discard k ex.tasks })) (λ e. e)
handle_message-StaysBad (with_neither k) ex =
    StaysBad-if (has k ex.tasks) ex _ (raised_error ex) (λ e. e) (λ e. e)
handle_message-StaysBad (interchange_exception none) ex = λ e. e
handle_message-StaysBad (interchange_exception (some d)) ex = bad_state_left d ex
handle_message-StaysBad bad_message ex = λ e. e

next_state-StaysBad : (m : ResultMessage) (c : Call) → StaysBad (after_call c) (next_state m c)
next_state-StaysBad m (raised_error ex) e = e
next_state-StaysBad (interchange_exception d) (returned ex) e = e
next_state-StaysBad (with_result k v) (returned ex) e = e
next_state-StaysBad (with_exception k v) (returned ex) e = e
next_state-StaysBad (with_neither k) (returned ex) e = e
next_state-StaysBad bad_message (returned ex) e = e

Holds-if : (b : Bool) (x y : Executor) → (b ≡ true → Holds x) → Holds y → Holds (if b then x else y)
Holds-if true x y p q = p refl
Holds-if false x y p q = q

submit-Holds :
    (spec_is_valid packs : Bool) (ex : Executor)
    → Holds ex
    → Holds (after_call (submit spec_is_valid packs ex))
unfolding submit
submit-Holds false packs ex h = h
submit-Holds true packs ex h = by_state (bad_state_is_set ex) packs
  where
    by_state :
        (b p : Bool)
        → Holds (
            after_call (
              if b
              then raised_error ex
              else (if p
                  then returned (record ex {
                    task_counter = ex.task_counter + 1;
                    tasks = ex.tasks ++ (ex.task_counter + 1) ∷ [];
                    futures = set_future (ex.task_counter + 1) unfinished ex.futures;
                    outgoing = ex.outgoing ++ (ex.task_counter + 1) ∷ [];
                  })
                  else raised_error (record ex {
                    task_counter = ex.task_counter + 1;
                    tasks = ex.tasks ++ (ex.task_counter + 1) ∷ [];
                    futures = set_future (ex.task_counter + 1) unfinished ex.futures;
                  }))))
    by_state true p = h
    by_state false true = λ e on. other-SoundTable _ _ _ _ _ (register-SoundTable ex (h e on))
    by_state false false = λ e on. register-SoundTable ex (h e on)

happen-Holds : (e : Event) (ex : Executor) → Holds ex → Holds (happen e ex)
unfolding happen
happen-Holds (submits spec_is_valid packs) ex h = submit-Holds spec_is_valid packs ex h
happen-Holds (error_handler e) ex h = λ bad on. bad_state_left e ex bad
happen-Holds (polls ms) ex h = Holds-if ex.listening _ ex (λ on. by_batch ex.batch) h
  where
    by_batch : (rest : List ResultMessage) → Holds (poll_batch rest ms ex)
    by_batch (m ∷ rest) = h
    by_batch [] =
        Holds-if (bad_state_is_set ex) (record ex { listening = false }) (record ex { batch = ms })
          (λ b e on. cc) (λ e on. other-SoundTable ex _ _ _ _ (h e on))
happen-Holds handles ex h = Holds-if ex.listening _ ex (λ on. by_batch on ex.batch) h
  where
    by_batch : ex.listening ≡ true → (rest : List ResultMessage) → Holds (handle_first rest ex)
    by_batch on [] = h
    by_batch on (m ∷ rest) = λ e still.
        let now : Executor = record ex { batch = rest } in
        let fine : ex.executor_exception ≡ none =
          handle_message-StaysBad m now (next_state-StaysBad m (handle_message m now) e) in
        next_state-Holds m (handle_message m now)
          (handle_message-AfterCall now (other-SoundTable ex _ _ _ rest (h fine on)) m) e still

run-Holds : (es : List Event) (ex : Executor) → Holds ex → Holds (run es ex)
unfolding run
run-Holds [] ex h = h
run-Holds (e ∷ es) ex h = run-Holds es (happen e ex) (happen-Holds e ex h)

-- In every state that a new executor reaches, while it is not in its bad state and its thread listens
-- for results: the table has exactly the tasks whose futures are unfinished, each once, and no future
-- has a task id above the counter. So `outstanding`, the length of the table, counts them.
pub table_is_exact :
    (es : List Event)
    → (run es new_executor).executor_exception ≡ none
    → (run es new_executor).listening ≡ true
    → SoundTable (run es new_executor)
unfolding has
table_is_exact es e on = run-Holds es new_executor empty e on
  where
    empty : Holds new_executor
    empty e on = record { distinct = tt; exact = λ k. refl; fresh = λ k lt. refl }
