-- ===== src/Dataflow/Invariant/Exec.antt =====
-- The end of a try and the launch (parsl/dataflow/dflow.py) keep the invariant.
use parsl.Prelude.{
  false, ◌≡◌, ◌⊎◌, inl, inr, refl, Option, none, some, List, [], ◌∷◌, arith, Bool-cases,
}
use parsl.Dataflow.Objects.{
  Error, Object, Items, Futures, Result, Ref, unresolved, done, ok, err, atom, exception_wrapper,
  future, sequence, list, tuple,
}
use parsl.Dataflow.States.{States, same, is_final, pending, exec_done, memo_done}
use parsl.Dataflow.Record.{Context, Run, returned, faulted, context_of}
use parsl.Dataflow.Config.{Config}
use parsl.Dataflow.Joins.{
  futures_of, start_join_list, start_join, refuse_join, begin_join, add_failure, complete_task,
}
use parsl.Dataflow.Exec.{
  handle_exec_update, settle_success, settle_failure, route_failure, relaunch_if_pending,
  unwrap_remote_exception_wrapper, charge, settle,
}
use parsl.Dataflow.Invariant.{is_waiting, Joinable, Inv, Ends, Settled}
use parsl.Dataflow.Invariant.Joins.{
  IsJoining, IsJoining-Inv, add_join_callbacks-Inv, add_join_callback-Inv, handle_join_update-Inv,
}

module _ (c : Context) (h : c.task.app_fu ≡ unresolved)
    (w : is_waiting c.task.exec_fu ≡ false) where
  begin_join-IsJoining : (o : Object) → IsJoining o (context_of (begin_join o c)).task
  unfolding begin_join
  begin_join-IsJoining o = (refl, h, w, refl)

  begin_join-Inv : (o : Object) → Joinable (some o) → Inv (context_of (begin_join o c)).task
  begin_join-Inv o g = IsJoining-Inv o _ (begin_join-IsJoining o) g

  refuse_join-Inv : Ends Settled (refuse_join c)
  unfolding refuse_join is_final same
  refuse_join-Inv = ground arith

  start_join_list-Inv :
      (look : Futures) (xs : Items) (fs : Option (List Ref))
      → futures_of xs ≡ fs
      → Ends Settled (start_join_list look xs fs c)
  start_join_list-Inv look xs (some []) g =
      let begun = context_of (begin_join (sequence list xs) c) in
      unfold start_join_list begin_join in
      handle_join_update-Inv look none begun (begin_join-Inv (sequence list xs) ([], g)) tt
  start_join_list-Inv look xs (some (f ∷ fs)) g =
      let begun = context_of (begin_join (sequence list xs) c) in
      unfold start_join_list begin_join in
      add_join_callbacks-Inv look xs (f ∷ fs) begun (begin_join-Inv (sequence list xs) (f ∷ fs, g))
        refl
  start_join_list-Inv look xs none g = unfold start_join_list in refuse_join-Inv

  start_join-Inv : (look : Futures) (o : Object) → Ends Settled (start_join look o c)
  start_join-Inv look (future f) =
      let begun = context_of (begin_join (future f) c) in
      unfold start_join begin_join in
      add_join_callback-Inv look f begun (begin_join-Inv (future f) tt) refl
  start_join-Inv look (sequence list xs) =
      unfold start_join in start_join_list-Inv look xs (futures_of xs) refl
  start_join-Inv look (sequence tuple xs) = unfold start_join in refuse_join-Inv
  start_join-Inv look (atom n) = unfold start_join in refuse_join-Inv
  start_join-Inv look (exception_wrapper e) = unfold start_join in refuse_join-Inv

  complete_task-Inv :
      (s : States) (o : Object)
      → (s ≡ exec_done) ⊎ (s ≡ memo_done)
      → Ends Settled (complete_task s o c)
  unfolding complete_task is_final same
  complete_task-Inv s o k = ground arith

  settle_success-Inv : (look : Futures) (o : Object) → Ends Settled (settle_success look o c)
  unfolding settle_success
  settle_success-Inv look o = ground (
    arith,
    complete_task-Inv memo_done o (inr refl),
    complete_task-Inv exec_done o (inl refl),
    start_join-Inv look o,
  )

  route_failure-Inv : (cfg : Config) (e : Error) → Ends Settled (route_failure cfg e c)
  unfolding route_failure is_final same
  route_failure-Inv cfg e = ground arith

then-Ends :
    (Q : Context → Type 0) (r : Run) (b : Context → Run)
    → Ends Q r
    → ((d : Context) → Q d → Ends Q (b d))
    → Ends Q (elim r [ returned d ↦ b d | faulted f d ↦ faulted f d ])
then-Ends Q (returned d) b h k = k d h
then-Ends Q (faulted f d) b h k = absurd h

relaunch-Inv : (c : Context) → Inv c.task → Ends Settled (relaunch_if_pending c)
unfolding relaunch_if_pending
relaunch-Inv c v = elim (Bool-cases (same c.task.status pending)) [
  | inl e ↦ rw e v
  | inr e ↦ rw e v
]

settle_failure-Inv :
    (cfg : Config) (e : Error) (c : Context)
    → c.task.app_fu ≡ unresolved
    → is_waiting c.task.exec_fu ≡ false
    → Ends Settled (settle_failure cfg e c)
unfolding settle_failure
settle_failure-Inv cfg e c h w =
    let failed_once = add_failure e c.task in
    let charged = charge cfg e failed_once in
    route_failure-Inv (record c { task = record failed_once { fail_cost = charged.0 } }) h w cfg
      charged.1

settle-Inv :
    (cfg : Config) (look : Futures) (r : Result Object) (c : Context)
    → c.task.app_fu ≡ unresolved
    → is_waiting c.task.exec_fu ≡ false
    → Ends Settled (settle cfg look r c)
settle-Inv cfg look (ok v) c h w = settle_success-Inv c h w look v
settle-Inv cfg look (err e) c h w = settle_failure-Inv cfg e c h w

-- The callback of a try that has ended, on a task whose future is open, raises nothing and
-- leaves the invariant.
pub handle_exec_update-Inv :
    (cfg : Config) (look : Futures) (r : Result Object) (c : Context)
    → c.task.app_fu ≡ unresolved
    → is_waiting c.task.exec_fu ≡ false
    → Ends Settled (handle_exec_update cfg look (done r) c)
handle_exec_update-Inv cfg look r c h w =
    unfold handle_exec_update in
    then-Ends Settled _ relaunch_if_pending
      (settle-Inv cfg look (unwrap_remote_exception_wrapper r) c h w) relaunch-Inv
