-- ===== src/Htex/Executor/Batches.antt =====
-- A batch of results: _result_queue_worker of parsl/executors/high_throughput/executor.py.
use parsl.Prelude.{
  ℕ, true, ◌≡◌, refl, sym, ap, ◌∙◌, subst, Option, some, List, [], ◌∷◌, map, ◌==◌, if◌then◌else◌,
}
use parsl.Htex.Interchange.State.{has, discard}
use parsl.Htex.Executor.{
  FutureValue, value, FutureState, finished, Decoded, ResultMessage, with_result, with_exception,
  Executor, set_future, returned, raised_error, finish_as, handle_message, decoded_value,
  next_state, handle_first, Event, handles, happen, run,
}
use parsl.Htex.Executor.Table.{SoundTable, known_task, settle-SoundTable, other-SoundTable}

-- The answer for a task: a result that can be deserialized, or an exception.
pub data Answer : Type 0 where
  good : ℕ → Answer
  failed : Decoded → Answer

abbrev pub message_of : ℕ × Answer → ResultMessage
message_of (k, good v) = with_result k (some v)
message_of (k, failed d) = with_exception k d

abbrev pub value_of : Answer → FutureValue
value_of (good v) = value v
value_of (failed d) = decoded_value d

-- Each task is outstanding when its answer is handled: in the table, and answered once.
abbrev pub Outstanding : List (ℕ × Answer) → List ℕ → Type 0
Outstanding [] ts = Unit
Outstanding ((k, a) ∷ answers) ts = (has k ts ≡ true) × Outstanding answers (discard k ts)

abbrev pub answered : ℕ → List (ℕ × Answer) → Option FutureState → Option FutureState
answered j [] o = o
answered j ((k, a) ∷ answers) o =
    answered j answers (if k == j then some (finished (value_of a)) else o)

abbrev pub one_each : List (ℕ × Answer) → List Event
one_each [] = []
one_each (a ∷ answers) = handles ∷ one_each answers

handle_answer :
    (k : ℕ) (a : Answer) (rest : List ResultMessage) (ex : Executor)
    → SoundTable ex
    → has k ex.tasks ≡ true
    → ex.listening ≡ true
    → ex.batch ≡ message_of (k, a) ∷ rest
    → happen handles ex ≡ record ex {
      tasks = discard k ex.tasks;
      futures = set_future k (finished (value_of a)) ex.futures;
      batch = rest;
    }
unfolding happen handle_message
handle_answer k a rest ex s h on b =
    ap (λ l. if l then handle_first ex.batch ex else ex) on
    ∙ ap (λ ms. handle_first ms ex) b
    ∙ by_answer a
  where
    popped : Executor
    popped = record ex { tasks = discard k ex.tasks; batch = rest }

    settled :
        (v : FutureValue)
        → finish_as (ex.futures k) k v popped
          ≡ returned (record popped { futures = set_future k (finished v) ex.futures })
    settled v = ap (λ o. finish_as o k v popped) (known_task k ex s h)

    by_answer :
        (c : Answer)
        → handle_first (message_of (k, c) ∷ rest) ex
          ≡ record popped { futures = set_future k (finished (value_of c)) ex.futures }
    by_answer (good v) =
        ap
          (λ t. next_state (with_result k (some v)) (
            if t
            then finish_as (ex.futures k) k (value v) popped
            else raised_error (record ex { batch = rest })))
          h
        ∙ ap (next_state (with_result k (some v))) (settled (value v))
    by_answer (failed d) =
        ap
          (λ t. next_state (with_exception k d) (
            if t
            then finish_as (ex.futures k) k (decoded_value d) popped
            else raised_error (record ex { batch = rest })))
          h
        ∙ ap (next_state (with_exception k d)) (settled (decoded_value d))

-- A sound executor listens, and has a batch of answers for outstanding tasks, each answered once. Then
-- it handles the whole batch and listens still, its table is sound, and exactly the futures of these
-- tasks have changed: each has its result or its exception.
pub batch_settles :
    (answers : List (ℕ × Answer)) (ex : Executor)
    → SoundTable ex
    → ex.listening ≡ true
    → ex.batch ≡ map message_of answers
    → Outstanding answers ex.tasks
    → SoundTable (run (one_each answers) ex)
      × ((run (one_each answers) ex).listening ≡ true)
      × ((run (one_each answers) ex).batch ≡ [])
      × ((j : ℕ) → (run (one_each answers) ex).futures j ≡ answered j answers (ex.futures j))
unfolding run
batch_settles [] ex s on b out = (s, on, b, λ j. refl)
batch_settles ((k, a) ∷ answers) ex s on b out =
    subst
      (λ (n : Executor).
        SoundTable (run (one_each answers) n)
        × ((run (one_each answers) n).listening ≡ true)
        × ((run (one_each answers) n).batch ≡ [])
        × ((j : ℕ)
            → (run (one_each answers) n).futures j ≡ answered j ((k, a) ∷ answers) (ex.futures j)))
      (sym (handle_answer k a (map message_of answers) ex s out.0 on b))
      (batch_settles answers
        (record ex {
          tasks = discard k ex.tasks;
          futures = set_future k (finished (value_of a)) ex.futures;
          batch = map message_of answers;
        })
        (other-SoundTable _ ex.outgoing ex.executor_exception ex.listening (map message_of answers)
          (settle-SoundTable k (value_of a) ex s out.0))
        on refl out.1)
