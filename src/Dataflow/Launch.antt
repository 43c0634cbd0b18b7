-- ===== src/Dataflow/Launch.antt =====
-- The launch of a task, and its submission to the kernel (parsl/dataflow/dflow.py).
use text.Mathlib.Text.{◌==◌ as str_eq}
use parsl.Prelude.{
  ℕ, ◌+◌, String, Bool, true, false, Option, none, some, List, [], ◌∷◌, ◌++◌, ◌==◌, if◌then◌else◌,
}
use parsl.Dataflow.Objects.{
  Failures, no_failures, failure, failures_append, Object, FutureState, Futures, Result, Ref,
  is_done, to_list, from_list, unresolved, done, ok, err, sequence, list, dependency_error,
  invalid_executor,
}
use parsl.Dataflow.States.{same, pending, dep_fail, launched}
use parsl.Dataflow.Resolver.{DependencyResolver}
use parsl.Dataflow.Record.{Context, context_of, update_task_state}
use parsl.Dataflow.Config.{Config}
use parsl.Dataflow.Exec.{handle_exec_update}

unfoldable pub count_deps : Futures → List Ref → ℕ
count_deps look [] = 0
count_deps look (d ∷ ds) = if is_done (look d) then count_deps look ds else count_deps look ds + 1

-- The elements of an `inputs` argument. (`submit` enumerates `inputs` before a record exists, so a
-- record's `inputs` can be iterated.)
unfoldable pub elements : Object → List Object
unfolding to_list
elements (sequence kind xs) = to_list xs
elements _ = []

-- `kwargs.get('inputs', [])`
unfoldable pub inputs_of : List (String × Object) → List Object
unfolding elements
inputs_of [] = []
inputs_of ((k, v) ∷ kw) = if str_eq k "inputs" then elements v else inputs_of kw

unfoldable pub set_inputs : Object → List (String × Object) → List (String × Object)
set_inputs new [] = []
set_inputs new ((k, v) ∷ kw) =
    if str_eq k "inputs" then (k, new) ∷ kw else (k, v) ∷ set_inputs new kw

module _ (gather : Object → List Ref) where
  unfoldable pub gather_list : List Object → List Ref
  gather_list [] = []
  gather_list (o ∷ os) = gather o ++ gather_list os

  unfoldable pub gather_kwargs : List (String × Object) → List Ref
  gather_kwargs [] = []
  gather_kwargs ((k, o) ∷ kw) = gather o ++ gather_kwargs kw

-- `_gather_all_deps`
unfoldable pub gather_all_deps :
    DependencyResolver → List Object → List (String × Object) → List Ref
unfolding gather_list gather_kwargs inputs_of
gather_all_deps resolver args kwargs =
    let gather = resolver.traverse_to_gather in
    gather_list gather args
    ++ (gather_kwargs gather kwargs ++ gather_list gather (inputs_of kwargs))

-- An argument that does not unwrap is left out of a list, and stays as it is among the kwargs.
abbrev pub keep : Result Object → Object → List Object × Failures → List Object × Failures
keep (ok v) o (vs, fs) = (v ∷ vs, fs)
keep (err e) o (vs, fs) = (vs, failure e o fs)

abbrev pub keep_kwarg :
    String
    → Result Object
    → Object
    → List (String × Object) × Failures
    → List (String × Object) × Failures
keep_kwarg k (ok v) o (kw, fs) = ((k, v) ∷ kw, fs)
keep_kwarg k (err e) o (kw, fs) = ((k, o) ∷ kw, failure e o fs)

module _ (unwrap : Object → Result Object) where
  unfoldable pub unwrap_list : List Object → List Object × Failures
  unwrap_list [] = ([], no_failures)
  unwrap_list (o ∷ os) = keep (unwrap o) o (unwrap_list os)

  unfoldable pub unwrap_kwargs : List (String × Object) → List (String × Object) × Failures
  unwrap_kwargs [] = ([], no_failures)
  unwrap_kwargs ((k, o) ∷ kw) = keep_kwarg k (unwrap o) o (unwrap_kwargs kw)

-- `_unwrap_futures`: the inputs are read after the pass over the kwargs has rewritten them.
unfoldable pub unwrap_futures :
    DependencyResolver
    → Futures
    → List Object
    → List (String × Object)
    → List Object × List (String × Object) × Failures
unfolding unwrap_list unwrap_kwargs inputs_of set_inputs from_list failures_append
unwrap_futures resolver look args kwargs =
    let unwrap = resolver.traverse_to_unwrap look in
    let (new_args, arg_failures) = unwrap_list unwrap args in
    let (new_kwargs, kwarg_failures) = unwrap_kwargs unwrap kwargs in
    let (new_inputs, input_failures) = unwrap_list unwrap (inputs_of new_kwargs) in
    (
      new_args,
      set_inputs (sequence list (from_list new_inputs)) new_kwargs,
      failures_append arg_failures (failures_append kwarg_failures input_failures),
    )

-- What code outside the kernel answers during a launch. `check_memo` finds the future of an
-- earlier task, which was stored when it was done, or nothing, or raises while hashing; the
-- executor's `submit` returns a future or raises.
pub record Answers : Type 0 where
  pub check_memo : Result (Option (Result Object))
  pub submit : Result FutureState

unfoldable pub is_executor : String → List String → Bool
is_executor label [] = false
is_executor label (l ∷ ls) = if str_eq l label then true else is_executor label ls

abbrev pub submit_to : Result FutureState → Context → Result FutureState × Context
submit_to (err e) ctx = (err e, ctx)
submit_to (ok fut) ctx = (ok fut, context_of (update_task_state launched ctx))

-- `launch_task`, which may raise; the context comes back with the exception too.
unfoldable pub launch_task : Config → Answers → Context → Result FutureState × Context
unfolding is_executor update_task_state
launch_task cfg answers ctx = elim answers.check_memo [
  | err e ↦ (err e, ctx)
  | ok (some memo) ↦ (ok (done memo), record ctx { task = record ctx.task { from_memo = true } })
  | ok none ↦
      let fresh = record ctx { task = record ctx.task { from_memo = false } } in
      if is_executor ctx.task.executor cfg.executors
      then submit_to answers.submit fresh
      else (err (invalid_executor ctx.task.id), fresh)
]

-- An exception of the launch becomes the exception of the try.
abbrev pub try_future : Result FutureState → FutureState
try_future (ok fut) = fut
try_future (err e) = done (err e)

abbrev pub remember : FutureState → Context → Context
remember fut ctx = record ctx { task = record ctx.task { exec_fu = some fut } }

-- `exec_fu.add_done_callback(...)` and `task_record['exec_fu'] = exec_fu`
unfoldable pub attach : Config → Futures → FutureState → Context → Context
unfolding handle_exec_update
attach cfg look unresolved ctx = remember unresolved ctx
attach cfg look (done r) ctx =
    remember (done r) (context_of (handle_exec_update cfg look (done r) ctx))

abbrev pub launch_unwrapped : Config → Futures → Answers → Failures → Context → Context
launch_unwrapped cfg look answers no_failures ctx =
    let (r, after) = launch_task cfg answers ctx in attach cfg look (try_future r) after
launch_unwrapped cfg look answers (failure e o rest) ctx =
    attach cfg look (done (err (dependency_error (failure e o rest) ctx.task.id)))
      (context_of (update_task_state dep_fail ctx))

-- `_launch_if_ready_async`. Launches run on one thread, so nothing comes between its steps but
-- what other tasks do.
unfoldable pub launch_if_ready_async : Config → Futures → Answers → Context → Context
unfolding count_deps unwrap_futures launch_task attach same update_task_state
launch_if_ready_async cfg look answers ctx =
    let (args, kwargs, failures) =
      unwrap_futures cfg.dependency_resolver look ctx.task.args ctx.task.kwargs in
    let start =
      launch_unwrapped cfg look answers failures
        (record ctx { task = record ctx.task { args = args; kwargs = kwargs } }) in
    if same ctx.task.status pending
    then (if count_deps look ctx.task.depends == 0 then start else ctx)
    else ctx
