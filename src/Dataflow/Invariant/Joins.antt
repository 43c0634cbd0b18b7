-- ===== src/Dataflow/Invariant/Joins.antt =====
-- The join handlers of parsl/dataflow/dflow.py keep the invariant and raise nothing.
use parsl.Prelude.{
  ◌∙◌, true, false, ◌≡◌, inl, inr, refl, Option, none, some, List, [], ◌∷◌, arith, Bool-cases,
}
use parsl.Dataflow.Objects.{
  Failures, no_failures, failure, Object, Items, FutureState, Futures, Ref, is_done, unresolved,
  done, ok, err, atom, exception_wrapper, future, sequence, list, tuple,
}
use parsl.Dataflow.States.{same, same_eq, is_final, joining}
use parsl.Dataflow.Record.{TaskRecord, Context, Run, context_of}
use parsl.Dataflow.Joins.{
  futures_of, all_done, exceptions_of, results_of, finish_join, join_one, join_many, join_on,
  handle_join_update, add_join_callbacks, is_ref,
}
use parsl.Dataflow.Invariant.{is_waiting, Joinable, Inv, Ends, Settled, Calls, context_of-Ends}

-- The task is joining on `o`, and nothing is resolved yet.
abbrev pub IsJoining : Object → TaskRecord → Type 0
IsJoining o t =
    (t.status ≡ joining)
    × (t.app_fu ≡ unresolved)
    × (is_waiting t.exec_fu ≡ false)
    × (t.joins ≡ some o)

finish_join-Inv :
    (fs : Failures) (v : Object) (c : Context)
    → c.task.app_fu ≡ unresolved
    → is_waiting c.task.exec_fu ≡ false
    → Ends Settled (finish_join fs v c)
unfolding finish_join is_final same
finish_join-Inv no_failures v c h w = ground arith
finish_join-Inv (failure e o rest) v c h w = ground arith

is_ref_self : (f : Ref) → is_ref f (some f) ≡ true
is_ref_self (Ref.app_future n) = ground arith
is_ref_self (Ref.other_future n) = ground arith

join_one-Inv :
    (look : Futures) (f : Ref) (c : Context)
    → is_done (look f) ≡ true
    → c.task.app_fu ≡ unresolved
    → is_waiting c.task.exec_fu ≡ false
    → Ends Settled (join_one (look f) f (some f) c)
join_one-Inv look f c d h w = go (look f) d
  where
    go : (s : FutureState) → is_done s ≡ true → Ends Settled (join_one s f (some f) c)
    go unresolved d' = cc
    go (done (err e)) d' =
        unfold join_one in finish_join-Inv (failure e (future f) no_failures) (future f) c h w
    go (done (ok v)) d' =
        unfold join_one in rw (is_ref_self f) (finish_join-Inv no_failures v c h w)

pub IsJoining-Inv : (o : Object) (t : TaskRecord) → IsJoining o t → Joinable (some o) → Inv t
unfolding is_final same
IsJoining-Inv o t (s, h, w, j) g = record {
  kernel = ground arith;
  resolved = ground arith;
  waiting = ground arith;
  joined = λ _. rw j g;
}

join_many-Inv :
    (look : Futures) (fs : List Ref) (o : Object) (c : Context)
    → IsJoining o c.task
    → Joinable (some o)
    → Ends Settled (join_many look (some fs) c)
join_many-Inv look fs o c (s, h, w, j) g = elim (Bool-cases (all_done look fs)) [
  | inl e ↦
      unfold join_many in
      rw e (finish_join-Inv (exceptions_of look fs) (sequence list (results_of look fs)) c h w)
  | inr e ↦ unfold join_many in rw e (IsJoining-Inv o c.task (s, h, w, j) g)
]

open_of_joining :
    {t : TaskRecord}
    → Inv t
    → t.status ≡ joining
    → (t.app_fu ≡ unresolved) × (is_waiting t.exec_fu ≡ false)
unfolding is_final same
open_of_joining v s = ground arith

Joinable-of :
    {t : TaskRecord} {j : Option Object} → Inv t → t.status ≡ joining → t.joins ≡ j → Joinable j
Joinable-of v s e = rw e at (v.joined s)

join_on-Inv :
    (look : Futures) (inner : Option Ref) (j : Option Object) (c : Context)
    → c.task.joins ≡ j
    → c.task.status ≡ joining
    → Inv c.task
    → Calls look inner j
    → Ends Settled (join_on look inner j c)
join_on-Inv look inner none c e s v k = absurd (Joinable-of v s e)
join_on-Inv look inner (some (future f)) c e s v (same_ref, d) =
    let (h, w) = open_of_joining v s in unfold join_on in rw same_ref (join_one-Inv look f c d h w)
join_on-Inv look inner (some (sequence list xs)) c e s v k =
    let (h, w) = open_of_joining v s in
    let (fs, g) = Joinable-of v s e in
    unfold join_on in rw g (join_many-Inv look fs (sequence list xs) c (s, h, w, e) (fs, g))
join_on-Inv look inner (some (sequence tuple xs)) c e s v k = absurd (Joinable-of v s e)
join_on-Inv look inner (some (atom n)) c e s v k = absurd (Joinable-of v s e)
join_on-Inv look inner (some (exception_wrapper x)) c e s v k = absurd (Joinable-of v s e)

-- A join callback, in any state of the task, raises nothing and keeps the invariant.
pub handle_join_update-Inv :
    (look : Futures) (inner : Option Ref) (c : Context)
    → Inv c.task
    → Calls look inner c.task.joins
    → Ends (λ d. Inv d.task) (handle_join_update look inner c)
handle_join_update-Inv look inner c v k = elim (Bool-cases (same c.task.status joining)) [
  | inl e ↦
      unfold handle_join_update in
      rw e (join_on-Inv look inner c.task.joins c refl (same_eq _ _ e) v k)
  | inr e ↦ unfold handle_join_update in rw e v
]

-- No join callback changes what the task joins on.
abbrev SameJoins : Context → Run → Type 0
SameJoins c r = (context_of r).task.joins ≡ c.task.joins

finish_join-SameJoins :
    (fs : Failures) (v : Object) (c : Context) → SameJoins c (finish_join fs v c)
unfolding finish_join
finish_join-SameJoins no_failures v c = ground arith
finish_join-SameJoins (failure e o rest) v c = ground arith

join_one-SameJoins :
    (s : FutureState) (f : Ref) (inner : Option Ref) (c : Context)
    → SameJoins c (join_one s f inner c)
unfolding join_one
join_one-SameJoins unresolved f inner c = refl
join_one-SameJoins (done (err e)) f inner c =
    ground (arith, finish_join-SameJoins (failure e (future f) no_failures) (future f) c)
join_one-SameJoins (done (ok v)) f inner c = ground (arith, finish_join-SameJoins no_failures v c)

join_many-SameJoins :
    (look : Futures) (fs : Option (List Ref)) (c : Context) → SameJoins c (join_many look fs c)
unfolding join_many
join_many-SameJoins look none c = refl
join_many-SameJoins look (some fs) c =
    ground
      (arith, finish_join-SameJoins (exceptions_of look fs) (sequence list (results_of look fs)) c)

join_on-SameJoins :
    (look : Futures) (inner : Option Ref) (j : Option Object) (c : Context)
    → SameJoins c (join_on look inner j c)
unfolding join_on
join_on-SameJoins look inner (some (future f)) c = join_one-SameJoins (look f) f inner c
join_on-SameJoins look inner (some (sequence list xs)) c =
    join_many-SameJoins look (futures_of xs) c
join_on-SameJoins look inner _ c = refl

handle_join_update-SameJoins :
    (look : Futures) (inner : Option Ref) (c : Context)
    → SameJoins c (handle_join_update look inner c)
unfolding handle_join_update
handle_join_update-SameJoins look inner c =
    ground (arith, join_on-SameJoins look inner c.task.joins c)

-- The callbacks of a list of joinable futures, those that are done already.
pub add_join_callbacks-Inv :
    (look : Futures) (xs : Items) (fs : List Ref) (c : Context)
    → Inv c.task
    → c.task.joins ≡ some (sequence list xs)
    → Ends Settled (add_join_callbacks look fs c)
unfolding add_join_callbacks
add_join_callbacks-Inv look xs [] c v e = v
add_join_callbacks-Inv look xs (f ∷ fs) c v e = elim (Bool-cases (is_done (look f))) [
  | inl d ↦
      let r = handle_join_update look (some f) c in
      rw d (
        add_join_callbacks-Inv look xs fs (context_of r)
          (context_of-Ends Settled r (handle_join_update-Inv look (some f) c v (rw e tt)))
          (handle_join_update-SameJoins look (some f) c ∙ e))
  | inr d ↦ rw d (add_join_callbacks-Inv look xs fs c v e)
]

pub add_join_callback-Inv :
    (look : Futures) (f : Ref) (c : Context)
    → Inv c.task
    → c.task.joins ≡ some (future f)
    → Ends Settled (add_join_callbacks look (f ∷ []) c)
unfolding add_join_callbacks
add_join_callback-Inv look f c v e = elim (Bool-cases (is_done (look f))) [
  | inl d ↦ rw d (
      context_of-Ends Settled (handle_join_update look (some f) c)
        (handle_join_update-Inv look (some f) c v (rw e (refl, d))))
  | inr d ↦ rw d v
]
