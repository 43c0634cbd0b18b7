-- ===== src/Htex/Executor.antt =====
-- The task table of HighThroughputExecutor: submit and _result_queue_worker of
-- parsl/executors/high_throughput/executor.py, and set_bad_state_and_fail_all of
-- parsl/executors/status_handling.py.
pub mod Table
pub mod BadState
pub mod Outstanding
pub mod Reached
pub mod Hangs
pub mod Batches
mod Examples
use parsl.Prelude.{
  ℕ, ◌+◌, Bool, true, false, Option, none, some, List, [], ◌∷◌, ◌++◌, ◌==◌, if◌then◌else◌,
}
use parsl.Htex.Interchange.State.{has, discard}

pub data FutureValue : Type 0 where
  value raised bad_state : ℕ → FutureValue
  deserialization_error : FutureValue

pub data FutureState : Type 0 where
  unfinished : FutureState
  finished : FutureValue → FutureState

-- What `deserialize` makes of an exception in a message; it may raise.
pub data Decoded : Type 0 where
  remote_wrapper exception_value : ℕ → Decoded
  other_value undecodable : Decoded

-- A message of the interchange. `interchange_exception` has the task id -1. `bad_message` is one that
-- cannot be unpickled, has an unknown type, or no task id. `none` is a `deserialize` that raises.
pub data ResultMessage : Type 0 where
  with_result : ℕ → Option ℕ → ResultMessage
  with_exception : ℕ → Decoded → ResultMessage
  with_neither : ℕ → ResultMessage
  interchange_exception : Option ℕ → ResultMessage
  bad_message : ResultMessage

-- `tasks` has the keys of the table; `futures` are all that were made, by their task ids. `batch` is
-- what the thread that listens for results has still to handle of what it has received.
pub record Executor : Type 0 where
  pub task_counter : ℕ
  pub tasks : List ℕ
  pub futures : ℕ → Option FutureState
  pub outgoing : List ℕ
  pub executor_exception : Option ℕ
  pub listening : Bool
  pub batch : List ResultMessage

abbrev pub bad_state_is_set : Executor → Bool
bad_state_is_set ex = elim ex.executor_exception [ none ↦ false | some e ↦ true ]

abbrev pub set_future : ℕ → FutureState → (ℕ → Option FutureState) → ℕ → Option FutureState
set_future k s futures j = if k == j then some s else futures j

-- A call returns, or raises and leaves what it has changed.
pub data Call : Type 0 where
  returned raised_error : Executor → Call

abbrev pub after_call : Call → Executor
after_call (returned ex) = ex
after_call (raised_error ex) = ex

-- `validate_resource_spec` accepts the specification or not, and the call is packed or raises.
unfoldable pub submit : (spec_is_valid packs : Bool) → Executor → Call
submit spec_is_valid packs ex =
    let task_id = ex.task_counter + 1 in
    let registered : Executor = record ex {
      task_counter = task_id;
      tasks = ex.tasks ++ task_id ∷ [];
      futures = set_future task_id unfinished ex.futures;
    } in
    let posted =
      if packs
      then returned (record registered { outgoing = ex.outgoing ++ task_id ∷ [] })
      else raised_error registered in
    if spec_is_valid
    then (if bad_state_is_set ex then raised_error ex else posted)
    else raised_error ex

-- `set_result` and `set_exception`: InvalidStateError for a future that is finished.
abbrev pub finish_as : Option FutureState → ℕ → FutureValue → Executor → Call
finish_as (some unfinished) k v ex =
    returned (record ex { futures = set_future k (finished v) ex.futures })
finish_as (some (finished w)) k v ex = raised_error ex
finish_as none k v ex = raised_error ex

unfoldable pub finish : ℕ → FutureValue → Executor → Call
finish k v ex = finish_as (ex.futures k) k v ex

unfoldable pub fail_each : ℕ → List ℕ → Executor → Call
unfolding finish
fail_each e [] ex = returned ex
fail_each e (k ∷ ks) ex = elim (finish k (bad_state e) ex) [
  | returned next ↦ fail_each e ks next
  | raised_error next ↦ raised_error next
]

unfoldable pub set_bad_state_and_fail_all : ℕ → Executor → Call
unfolding fail_each
set_bad_state_and_fail_all e ex = fail_each e ex.tasks (record ex { executor_exception = some e })

abbrev pub decoded_value : Decoded → FutureValue
decoded_value (remote_wrapper e) = raised e
decoded_value (exception_value e) = raised e
decoded_value other_value = deserialization_error
decoded_value undecodable = deserialization_error

-- `self.tasks.pop(tid)`, and then what is done with the future; KeyError where there is none.
abbrev pub pop_task : ℕ → (Executor → Call) → Executor → Call
pop_task k act ex =
    let popped = act (record ex { tasks = discard k ex.tasks }) in
    if has k ex.tasks then popped else raised_error ex

abbrev pub finish_result : ℕ → Option ℕ → Executor → Call
finish_result k none ex = raised_error ex
finish_result k (some v) ex = finish k (value v) ex

abbrev pub fail_from_interchange : Option ℕ → Executor → Call
fail_from_interchange none ex = raised_error ex
fail_from_interchange (some e) ex = set_bad_state_and_fail_all e ex

-- A second attempt to finish the future, in the handler of the exception of the first, raises too.
unfoldable pub handle_message : ResultMessage → Executor → Call
unfolding finish set_bad_state_and_fail_all has discard
handle_message (with_result k v) ex = pop_task k (finish_result k v) ex
handle_message (with_exception k d) ex = pop_task k (finish k (decoded_value d)) ex
handle_message (with_neither k) ex = pop_task k raised_error ex
handle_message (interchange_exception e) ex = fail_from_interchange e ex
handle_message bad_message ex = raised_error ex

-- The end of the loop over a batch for an exception of the interchange, or of the thread for one that
-- is raised.
abbrev pub leave_batch : ResultMessage → Executor → Executor
leave_batch (interchange_exception e) ex = record ex { batch = [] }
leave_batch _ ex = ex

abbrev pub next_state : ResultMessage → Call → Executor
next_state m (returned ex) = leave_batch m ex
next_state m (raised_error ex) = record ex { listening = false; batch = [] }

-- What happens to the executor. The error handlers of the poller may call
-- `set_bad_state_and_fail_all` at any time, also between two messages.
pub data Event : Type 0 where
  submits : (spec_is_valid packs : Bool) → Event
  polls : List ResultMessage → Event
  handles : Event
  error_handler : ℕ → Event

-- The thread looks for messages again when it has handled a batch, and ends in a bad state.
abbrev pub poll_batch : List ResultMessage → List ResultMessage → Executor → Executor
poll_batch [] ms ex =
    if bad_state_is_set ex then record ex { listening = false } else record ex { batch = ms }
poll_batch (m ∷ rest) ms ex = ex

abbrev pub handle_first : List ResultMessage → Executor → Executor
handle_first [] ex = ex
handle_first (m ∷ rest) ex = next_state m (handle_message m (record ex { batch = rest }))

unfoldable pub happen : Event → Executor → Executor
unfolding submit handle_message set_bad_state_and_fail_all
happen (submits spec_is_valid packs) ex = after_call (submit spec_is_valid packs ex)
happen (polls ms) ex = if ex.listening then poll_batch ex.batch ms ex else ex
happen handles ex = if ex.listening then handle_first ex.batch ex else ex
happen (error_handler e) ex = after_call (set_bad_state_and_fail_all e ex)

unfoldable pub run : List Event → Executor → Executor
unfolding happen
run [] ex = ex
run (e ∷ es) ex = run es (happen e ex)

abbrev pub new_executor : Executor
new_executor = record {
  task_counter = 0;
  tasks = [];
  futures = λ k. none;
  outgoing = [];
  executor_exception = none;
  listening = true;
  batch = [];
}
