-- ===== src/Dataflow/Joins.antt =====
-- Completion of a task, and the join handlers of parsl/dataflow/dflow.py.
use mathlib.Core.Option
use parsl.Prelude.{
  ◌+◌, Bool, true, false, not, ◌&&◌, Option, none, some, List, [], ◌∷◌, ◌++◌, ◌==◌, if◌then◌else◌,
}
use parsl.Dataflow.Objects.{
  Error, Failures, no_failures, failure, Object, Items, FutureState, Futures, Ref, is_done,
  unresolved, done, ok, err, future, sequence, nil, cons, list, join_error, join_type_error,
}
use parsl.Dataflow.States.{States, same, is_final, is_final_failure, exec_done, failed, joining}
use parsl.Dataflow.Record.{
  TaskRecord, returned, Action, ◌then◌, pass, raise, modify, context_of, assertion_failed,
  type_error, blocked, update_task_state, set_app_fu,
}

-- `_complete_task`, with its two assertions.
unfoldable pub complete_task : States → Object → Action
unfolding update_task_state set_app_fu is_final is_final_failure
complete_task new_state result =
    if is_final new_state && not (is_final_failure new_state)
    then (update_task_state new_state then set_app_fu (ok result))
    else raise assertion_failed

abbrev pub add_failure : Error → TaskRecord → TaskRecord
add_failure e t = record t {
  fail_history = t.fail_history ++ e ∷ [];
  fail_count = t.fail_count + 1;
}

-- The futures of a list of futures; `none` where an element is something else.
unfoldable pub futures_of : Items → Option (List Ref)
futures_of nil = some []
futures_of (cons (future f) xs) = Option.map (λ fs. f ∷ fs) (futures_of xs)
futures_of (cons _ xs) = none

unfoldable pub all_done : Futures → List Ref → Bool
all_done look [] = true
all_done look (f ∷ fs) = is_done (look f) && all_done look fs

-- The exceptions and the results of a list of futures, read when all of them are done.
abbrev pub add_exception : Ref → FutureState → Failures → Failures
add_exception f (done (err e)) rest = failure e (future f) rest
add_exception f _ rest = rest

unfoldable pub exceptions_of : Futures → List Ref → Failures
exceptions_of look [] = no_failures
exceptions_of look (f ∷ fs) = add_exception f (look f) (exceptions_of look fs)

abbrev add_result : FutureState → Items → Items
add_result (done (ok v)) rest = cons v rest
add_result _ rest = rest

unfoldable pub results_of : Futures → List Ref → Items
results_of look [] = nil
results_of look (f ∷ fs) = add_result (look f) (results_of look fs)

-- The end of a join: the JoinError if there are exceptions, and else the result.
unfoldable pub finish_join : Failures → Object → Action
unfolding update_task_state set_app_fu complete_task
finish_join no_failures result ctx = complete_task exec_done result ctx
finish_join (failure e o rest) result ctx =
    let error = join_error (failure e o rest) ctx.task.id in
    (modify (add_failure error) then update_task_state failed then set_app_fu (err error)) ctx

abbrev pub is_ref : Ref → Option Ref → Bool
is_ref f none = false
is_ref (Ref.app_future n) (some (Ref.app_future m)) = n == m
is_ref (Ref.other_future n) (some (Ref.other_future m)) = n == m
is_ref f (some _) = false

unfoldable pub join_one : FutureState → Ref → Option Ref → Action
unfolding finish_join
join_one unresolved f inner = raise blocked
join_one (done (err e)) f inner = finish_join (failure e (future f) no_failures) (future f)
join_one (done (ok v)) f inner =
    if is_ref f inner then finish_join no_failures v else raise assertion_failed

unfoldable pub join_many : Futures → Option (List Ref) → Action
unfolding finish_join all_done exceptions_of results_of
join_many look none = raise type_error
join_many look (some fs) =
    if all_done look fs
    then finish_join (exceptions_of look fs) (sequence list (results_of look fs))
    else pass

unfoldable pub join_on : Futures → Option Ref → Option Object → Action
unfolding join_one join_many futures_of
join_on look inner (some (future f)) = join_one (look f) f inner
join_on look inner (some (sequence list xs)) = join_many look (futures_of xs)
join_on look inner _ = raise type_error

unfoldable pub handle_join_update : Futures → Option Ref → Action
unfolding join_on same
handle_join_update look inner ctx =
    (if same ctx.task.status joining then join_on look inner ctx.task.joins else pass) ctx

-- `add_done_callback` runs the callback at once on a future that is done.
unfoldable pub add_join_callbacks : Futures → List Ref → Action
unfolding handle_join_update
add_join_callbacks look [] ctx = returned ctx
add_join_callbacks look (f ∷ fs) ctx =
    add_join_callbacks look fs
      (if is_done (look f) then context_of (handle_join_update look (some f) ctx) else ctx)

unfoldable pub begin_join : Object → Action
unfolding update_task_state
begin_join joinable =
    update_task_state joining then modify (λ t. record t { joins = some joinable })

unfoldable pub refuse_join : Action
unfolding update_task_state set_app_fu
refuse_join = update_task_state failed then set_app_fu (err join_type_error)

unfoldable pub start_join_list : Futures → Items → Option (List Ref) → Action
unfolding begin_join add_join_callbacks handle_join_update refuse_join
start_join_list look xs (some []) = begin_join (sequence list xs) then handle_join_update look none
start_join_list look xs (some (f ∷ fs)) =
    begin_join (sequence list xs) then add_join_callbacks look (f ∷ fs)
start_join_list look xs none = refuse_join

-- The function of a join app has returned `joinable`.
unfoldable pub start_join : Futures → Object → Action
unfolding begin_join add_join_callbacks refuse_join start_join_list futures_of
start_join look (future f) = begin_join (future f) then add_join_callbacks look (f ∷ [])
start_join look (sequence list xs) = start_join_list look xs (futures_of xs)
start_join look _ = refuse_join
