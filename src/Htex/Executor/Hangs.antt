-- ===== src/Htex/Executor/Hangs.antt =====
-- A result that cannot be deserialized: _result_queue_worker of
-- parsl/executors/high_throughput/executor.py.
use parsl.Prelude.{
  ℕ, ◌+◌, ◌≤◌, Bool, true, false, ◌≡◌, refl, sym, ◌∙◌, subst, Option, none, some, List, [], ◌∷◌,
  ◌++◌, ltb, ◌==◌, if◌then◌else◌, arith, ==_iff, ltb→lt, ltb→ge,
}
use parsl.Htex.Interchange.State.{has, discard}
use parsl.Htex.Interchange.Tables.{has-append, has-discard}
use parsl.Htex.Interchange.Turns.Tasks.{not_here}
use parsl.Htex.Executor.{
  FutureState, unfinished, finished, bad_state, ResultMessage, with_result, Executor, set_future,
  returned, raised_error, after_call, submit, finish_as, fail_each, handle_message,
  bad_state_is_set, next_state, handle_first, Event, submits, polls, handles, error_handler, happen,
  run,
}
use parsl.Htex.Executor.Table.{SoundTable, known_task}

-- The future is unfinished, its task is not in the table, and the thread does not listen.
record IsStuck (k : ℕ) (ex : Executor) : Type 0 where
  silent : ex.listening ≡ false
  absent : has k ex.tasks ≡ false
  waits : ex.futures k ≡ some unfinished
  old : k ≤ ex.task_counter

fail_each-IsStuck :
    (k e : ℕ) (ks : List ℕ) (ex : Executor)
    → has k ks ≡ false
    → IsStuck k ex
    → IsStuck k (after_call (fail_each e ks ex))
unfolding fail_each
fail_each-IsStuck k e [] ex h s = s
fail_each-IsStuck k e (j ∷ js) ex h s =
    let (other, rest) = not_here k j js h in
    by_future (ex.futures j) other (λ n. fail_each-IsStuck k e js n rest)
  where
    by_future :
        (o : Option FutureState)
        → (k == j) ≡ false
        → ((n : Executor) → IsStuck k n → IsStuck k (after_call (fail_each e js n)))
        → IsStuck k (
            after_call (elim (finish_as o j (bad_state e) ex) [
              | returned next ↦ fail_each e js next
              | raised_error next ↦ raised_error next
            ]))
    by_future none other ih = s
    by_future (some (finished v)) other ih = s
    by_future (some unfinished) other ih = ih _ (record {
      silent = s.silent;
      absent = s.absent;
      waits = let turned : (j == k) ≡ false = ground arith in rw turned s.waits;
      old = s.old;
    })

submit-IsStuck :
    (k : ℕ) (spec_is_valid packs : Bool) (ex : Executor)
    → IsStuck k ex
    → IsStuck k (after_call (submit spec_is_valid packs ex))
unfolding submit
submit-IsStuck k false packs ex s = s
submit-IsStuck k true packs ex s = by_state (bad_state_is_set ex) packs
  where
    registered :
        (out : List ℕ)
        → IsStuck k (record ex {
          task_counter = ex.task_counter + 1;
          tasks = ex.tasks ++ (ex.task_counter + 1) ∷ [];
          futures = set_future (ex.task_counter + 1) unfinished ex.futures;
          outgoing = out;
        })
    registered out =
        let old = s.old in
        let other : (ex.task_counter + 1 == k) ≡ false = ground arith in
        record {
          silent = s.silent;
          absent = has-append k (ex.task_counter + 1) ex.tasks ∙ rw other s.absent;
          waits = rw other s.waits;
          old = omega arith;
        }

    by_state :
        (b p : Bool)
        → IsStuck k (
            after_call (
              if b
              then raised_error ex
              else (if p
                  then returned (record ex {
                    task_counter = ex.task_counter + 1;
                    tasks = ex.tasks ++ (ex.task_counter + 1) ∷ [];
                    futures = set_future (ex.task_counter + 1) unfinished ex.futures;
                    outgoing = ex.outgoing ++ (ex.task_counter + 1) ∷ [];
                  })
                  else raised_error (record ex {
                    task_counter = ex.task_counter + 1;
                    tasks = ex.tasks ++ (ex.task_counter + 1) ∷ [];
                    futures = set_future (ex.task_counter + 1) unfinished ex.futures;
                  }))))
    by_state true p = s
    by_state false true = registered (ex.outgoing ++ (ex.task_counter + 1) ∷ [])
    by_state false false = registered ex.outgoing

silent-IsStuck :
    (k : ℕ) (b : Bool) (x ex : Executor)
    → b ≡ false
    → IsStuck k ex
    → IsStuck k (if b then x else ex)
silent-IsStuck k true x ex e s = cc
silent-IsStuck k false x ex e s = s

happen-IsStuck : (k : ℕ) (e : Event) (ex : Executor) → IsStuck k ex → IsStuck k (happen e ex)
unfolding happen
happen-IsStuck k (submits v p) ex s = submit-IsStuck k v p ex s
happen-IsStuck k (polls ms) ex s = silent-IsStuck k ex.listening _ ex s.silent s
happen-IsStuck k handles ex s = silent-IsStuck k ex.listening _ ex s.silent s
happen-IsStuck k (error_handler e) ex s =
    fail_each-IsStuck k e ex.tasks (record ex { executor_exception = some e }) s.absent
      (record { silent = s.silent; absent = s.absent; waits = s.waits; old = s.old })

run-IsStuck : (k : ℕ) (es : List Event) (ex : Executor) → IsStuck k ex → IsStuck k (run es ex)
unfolding run
run-IsStuck k [] ex s = s
run-IsStuck k (e ∷ es) ex s = run-IsStuck k es (happen e ex) (happen-IsStuck k e ex s)

first-IsStuck :
    (k : ℕ) (rest : List ResultMessage) (ex : Executor)
    → SoundTable ex
    → has k ex.tasks ≡ true
    → IsStuck k (handle_first (with_result k none ∷ rest) ex)
unfolding handle_message
first-IsStuck k rest ex s h =
    subst
      (λ b. IsStuck k (
        next_state (with_result k none) (
          if b
          then raised_error (record ex { tasks = discard k ex.tasks; batch = rest })
          else raised_error (record ex { batch = rest }))))
      (sym h)
      (record {
        silent = refl;
        absent = has-discard k k ex.tasks ∙ rw ((==_iff k k).1 refl) refl;
        waits = known_task k ex s h;
        old = within (ltb ex.task_counter k) refl;
      })
  where
    within : (b : Bool) → ltb ex.task_counter k ≡ b → k ≤ ex.task_counter
    within false e = ltb→ge ex.task_counter k e
    within true e =
        absurd (clash (sym (s.fresh k (ltb→lt ex.task_counter k e)) ∙ known_task k ex s h))
      where
        clash : ¬ (◌≡◌ {A = Option FutureState} none (some unfinished))
        clash p = cc

-- A sound executor listens, and the next message is the result of a task of its table, and cannot be
-- deserialized. When it has handled the message, the future of the task stays unfinished for ever,
-- whatever happens: not even the bad state ends it.
pub undecodable_result_hangs :
    (k : ℕ) (rest : List ResultMessage) (es : List Event) (ex : Executor)
    → SoundTable ex
    → ex.listening ≡ true
    → ex.batch ≡ with_result k none ∷ rest
    → has k ex.tasks ≡ true
    → (run es (happen handles ex)).futures k ≡ some unfinished
unfolding happen
undecodable_result_hangs k rest es ex s on b h =
    let stuck : IsStuck k (if ex.listening then handle_first ex.batch ex else ex) =
      subst (λ l. IsStuck k (if l then handle_first ex.batch ex else ex)) (sym on)
        (subst (λ ms. IsStuck k (handle_first ms ex)) (sym b) (first-IsStuck k rest ex s h)) in
    (run-IsStuck k es _ stuck).waits
