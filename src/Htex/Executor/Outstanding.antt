-- ===== src/Htex/Executor/Outstanding.antt =====
-- The table and the futures as the messages of a batch are handled
-- (parsl/executors/high_throughput/executor.py).
use parsl.Prelude.{ℕ, true, ◌≡◌, sym, ◌∙◌, none, some, [], Bool-cases, inl, inr}
use parsl.Htex.Interchange.State.{has, discard}
use parsl.Htex.Executor.{
  FutureValue, ResultMessage, with_result, with_exception, with_neither, interchange_exception,
  bad_message, Executor, Call, returned, raised_error, after_call, finish,
  set_bad_state_and_fail_all, handle_message, pop_task, finish_result, decoded_value, next_state,
}
use parsl.Htex.Executor.Table.{
  SoundTable, other-SoundTable, settle-SoundTable, finish_known, known_task,
}
use parsl.Htex.Executor.BadState.{fail_each_exception}

-- While the executor is not in its bad state and its thread listens, the table is sound.
abbrev pub Holds : Executor → Type 0
Holds ex = ex.executor_exception ≡ none → ex.listening ≡ true → SoundTable ex

-- So after a call that returns.
abbrev AfterCall : Call → Type 0
AfterCall (returned ex) = ex.executor_exception ≡ none → SoundTable ex
AfterCall (raised_error ex) = Unit

pub bad_state_left :
    {P : Type 0} (e : ℕ) (ex : Executor)
    → (after_call (set_bad_state_and_fail_all e ex)).executor_exception ≡ none
    → P
unfolding set_bad_state_and_fail_all
bad_state_left e ex h =
    absurd
      (clash (sym (fail_each_exception e ex.tasks (record ex { executor_exception = some e })) ∙ h))
  where
    clash : ¬ (some e ≡ none)
    clash p = cc

fail_all-AfterCall : (e : ℕ) (ex : Executor) → AfterCall (set_bad_state_and_fail_all e ex)
fail_all-AfterCall e ex = by_call (set_bad_state_and_fail_all e ex) (bad_state_left e ex)
  where
    by_call :
        (c : Call)
        → ((after_call c).executor_exception ≡ none → SoundTable (after_call c))
        → AfterCall c
    by_call (returned n) h = h
    by_call (raised_error n) h = tt

module _ (ex : Executor) (s : SoundTable ex) where
  settle-AfterCall :
      (k : ℕ) (v : FutureValue)
      → has k ex.tasks ≡ true
      → AfterCall (finish k v (record ex { tasks = discard k ex.tasks }))
  settle-AfterCall k v h =
      rw (finish_known k v (record ex { tasks = discard k ex.tasks }) (known_task k ex s h))
        (λ e. settle-SoundTable k v ex s h)

  pop_task-AfterCall :
      (k : ℕ) (f : Executor → Call)
      → (has k ex.tasks ≡ true → AfterCall (f (record ex { tasks = discard k ex.tasks })))
      → AfterCall (pop_task k f ex)
  pop_task-AfterCall k f h = elim (Bool-cases (has k ex.tasks)) [
    | inl there ↦ rw there (h there)
    | inr missing ↦ rw missing tt
  ]

  pub handle_message-AfterCall : (m : ResultMessage) → AfterCall (handle_message m ex)
  unfolding handle_message
  handle_message-AfterCall (with_result k none) =
      pop_task-AfterCall k (finish_result k none) (λ there. tt)
  handle_message-AfterCall (with_result k (some v)) =
      pop_task-AfterCall k (finish_result k (some v)) (settle-AfterCall k _)
  handle_message-AfterCall (with_exception k d) =
      pop_task-AfterCall k (finish k (decoded_value d)) (settle-AfterCall k (decoded_value d))
  handle_message-AfterCall (with_neither k) = pop_task-AfterCall k raised_error (λ there. tt)
  handle_message-AfterCall (interchange_exception none) = tt
  handle_message-AfterCall (interchange_exception (some e)) = fail_all-AfterCall e ex
  handle_message-AfterCall bad_message = tt

pub next_state-Holds : (m : ResultMessage) (c : Call) → AfterCall c → Holds (next_state m c)
next_state-Holds m (raised_error ex) h e on = cc
next_state-Holds (interchange_exception d) (returned ex) h e on =
    other-SoundTable ex ex.outgoing ex.executor_exception ex.listening [] (h e)
next_state-Holds (with_result k v) (returned ex) h e on = h e
next_state-Holds (with_exception k v) (returned ex) h e on = h e
next_state-Holds (with_neither k) (returned ex) h e on = h e
next_state-Holds bad_message (returned ex) h e on = h e
