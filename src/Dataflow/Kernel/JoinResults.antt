-- ===== src/Dataflow/Kernel/JoinResults.antt =====
-- What a join gives its task (`handle_join_update` of parsl/dataflow/dflow.py).
use parsl.Prelude.{
  ◌+◌, Bool, true, false, ◌≡◌, refl, sym, inl, inr, ap, ◌∙◌, Option, some, List, [], ◌∷◌, arith,
  if◌then◌else◌,
}
use parsl.Dataflow.Objects.{
  Error, Failures, no_failures, failure, Object, Items, Futures, Ref, unresolved, done, ok, err,
  sequence, cons, list, from_list, join_error, future, FutureState, is_done,
}
use parsl.Dataflow.Failing.{FailsWith}
use parsl.Dataflow.States.{States, same, joining, exec_done, failed}
use parsl.Dataflow.Record.{Context, pass, returned, context_of}
use parsl.Dataflow.Joins.{
  add_exception, handle_join_update, futures_of, all_done, exceptions_of, results_of, finish_join,
  join_many, join_on,
}

-- The futures hold these values, in order.
abbrev pub HoldAll : Futures → List Ref → List Object → Type 0
HoldAll looks [] [] = Unit
HoldAll looks (f ∷ fs) (v ∷ vs) = (looks f ≡ done (ok v)) × HoldAll looks fs vs
HoldAll looks _ _ = ⊥

HoldAll-all_done :
    (looks : Futures) (fs : List Ref) (vs : List Object)
    → HoldAll looks fs vs
    → all_done looks fs ≡ true
unfolding all_done
HoldAll-all_done looks [] [] h = refl
HoldAll-all_done looks [] (v ∷ vs) h = absurd h
HoldAll-all_done looks (f ∷ fs) [] h = absurd h
HoldAll-all_done looks (f ∷ fs) (v ∷ vs) h = rw h.0 (HoldAll-all_done looks fs vs h.1)

HoldAll-exceptions :
    (looks : Futures) (fs : List Ref) (vs : List Object)
    → HoldAll looks fs vs
    → exceptions_of looks fs ≡ no_failures
unfolding exceptions_of
HoldAll-exceptions looks [] [] h = refl
HoldAll-exceptions looks [] (v ∷ vs) h = absurd h
HoldAll-exceptions looks (f ∷ fs) [] h = absurd h
HoldAll-exceptions looks (f ∷ fs) (v ∷ vs) h = rw h.0 (HoldAll-exceptions looks fs vs h.1)

HoldAll-results :
    (looks : Futures) (fs : List Ref) (vs : List Object)
    → HoldAll looks fs vs
    → results_of looks fs ≡ from_list vs
unfolding results_of from_list
HoldAll-results looks [] [] h = refl
HoldAll-results looks [] (v ∷ vs) h = absurd h
HoldAll-results looks (f ∷ fs) [] h = absurd h
HoldAll-results looks (f ∷ fs) (v ∷ vs) h = rw h.0 (ap (cons v) (HoldAll-results looks fs vs h.1))

joining_lem : (s : States) → s ≡ joining → same s joining ≡ true
unfolding same
joining_lem s h = ground arith

join_on_list :
    (looks : Futures) (inner : Option Ref) (xs : Items) (fs : List Ref) (c : Context)
    → futures_of xs ≡ some fs
    → join_on looks inner (some (sequence list xs)) c ≡ join_many looks (some fs) c
unfolding join_on
join_on_list looks inner xs fs c g = ap (λ (o : Option (List Ref)). join_many looks o c) g

joining_eq :
    (looks : Futures) (inner : Option Ref) (c : Context)
    → c.task.status ≡ joining
    → handle_join_update looks inner c ≡ join_on looks inner c.task.joins c
unfolding handle_join_update
joining_eq looks inner c s =
    ap (λ (b : Bool). (if b then join_on looks inner c.task.joins else pass) c)
      (joining_lem c.task.status s)

join_eq :
    (looks : Futures) (inner : Option Ref) (xs : Items) (fs : List Ref) (c : Context)
    → c.task.status ≡ joining
    → c.task.joins ≡ some (sequence list xs)
    → futures_of xs ≡ some fs
    → handle_join_update looks inner c ≡ join_many looks (some fs) c
join_eq looks inner xs fs c s j g =
    joining_eq looks inner c s
    ∙ ap (λ (o : Option Object). join_on looks inner o c) j
    ∙ join_on_list looks inner xs fs c g

finish_join_ok :
    (v : Object) (c : Context)
    → c.task.app_fu ≡ unresolved
    → (let d = context_of (finish_join no_failures v c) in
        (d.task.status ≡ exec_done) × (d.task.app_fu ≡ done (ok v)))
unfolding finish_join
finish_join_ok v c h = ground arith

finish_join_err :
    (e : Error) (o : Object) (rest : Failures) (v : Object) (c : Context)
    → c.task.app_fu ≡ unresolved
    → (let d = context_of (finish_join (failure e o rest) v c) in
        (d.task.status ≡ failed)
        × (d.task.app_fu ≡ done (err (join_error (failure e o rest) c.task.id)))
        × (d.task.fail_count ≡ c.task.fail_count + 1)
        × (d.task.fail_cost ≡ c.task.fail_cost))
unfolding finish_join
finish_join_err e o rest v c h = ground arith

join_many_done :
    (looks : Futures) (fs : List Ref) (c : Context)
    → all_done looks fs ≡ true
    → join_many looks (some fs) c
      ≡ finish_join (exceptions_of looks fs) (sequence list (results_of looks fs)) c
join_many_done looks fs c a = unfold join_many in rw a

join_many_waits :
    (looks : Futures) (fs : List Ref) (c : Context)
    → all_done looks fs ≡ false
    → join_many looks (some fs) c ≡ returned c
join_many_waits looks fs c a = unfold join_many in rw a

-- A task that joins on a list of futures which hold the values `vs`, in order, ends in
-- `exec_done`, and its future holds the list of `vs`, in that order.
pub join_returns_values :
    (looks : Futures) (inner : Option Ref) (xs : Items) (fs : List Ref) (vs : List Object)
    (c : Context)
    → c.task.status ≡ joining
    → c.task.app_fu ≡ unresolved
    → c.task.joins ≡ some (sequence list xs)
    → futures_of xs ≡ some fs
    → HoldAll looks fs vs
    → (let d = context_of (handle_join_update looks inner c) in
        (d.task.status ≡ exec_done) × (d.task.app_fu ≡ done (ok (sequence list (from_list vs)))))
join_returns_values looks inner xs fs vs c s h j g v =
    rw
      (
        join_eq looks inner xs fs c s j g,
        join_many_done looks fs c (HoldAll-all_done looks fs vs v),
        HoldAll-exceptions looks fs vs v,
        HoldAll-results looks fs vs v,
      )
      (finish_join_ok (sequence list (from_list vs)) c h)

add_exception-ok :
    (f : Ref) (s : FutureState) (v : Object) (rest : Failures)
    → s ≡ done (ok v)
    → (is_done s ≡ true) × (add_exception f s rest ≡ rest)
add_exception-ok f unresolved v rest h = cc
add_exception-ok f (done (ok w)) v rest h = (refl, refl)
add_exception-ok f (done (err e)) v rest h = cc

add_exception-err :
    (f : Ref) (s : FutureState) (e : Error) (rest : Failures)
    → s ≡ done (err e)
    → (is_done s ≡ true) × (add_exception f s rest ≡ failure e (future f) rest)
add_exception-err f unresolved e rest h = cc
add_exception-err f (done (ok w)) e rest h = cc
add_exception-err f (done (err d)) e rest h = (refl, cc)

FailsWith-exceptions :
    (looks : Futures) (fs : List Ref) (collected : Failures)
    → FailsWith (λ f r. looks f ≡ done r) future fs collected
    → (all_done looks fs ≡ true) × (exceptions_of looks fs ≡ collected)
unfolding all_done exceptions_of
FailsWith-exceptions looks [] collected h = (refl, sym h)
FailsWith-exceptions looks (f ∷ fs) collected (inl (v, u, h)) =
    let (is, same) = add_exception-ok f (looks f) v (exceptions_of looks fs) u in
    let (every, exceptions) = FailsWith-exceptions looks fs collected h in
    (rw is every, same ∙ exceptions)
FailsWith-exceptions looks (f ∷ fs) collected (inr (e, rest, u, here, h)) =
    let (is, same) = add_exception-err f (looks f) e (exceptions_of looks fs) u in
    let (every, exceptions) = FailsWith-exceptions looks fs rest h in
    (rw is every, same ∙ ap (failure e (future f)) exceptions ∙ sym here)

-- A task that joins on a list of futures that are all done, one at least with an exception, has
-- failed: its future holds the JoinError with the exception of each future that has one, in order
-- and with that future, and the retry cost is unchanged.
pub join_fails :
    (looks : Futures) (inner : Option Ref) (xs : Items) (fs : List Ref) (e : Error) (o : Object)
    (rest : Failures) (c : Context)
    → c.task.status ≡ joining
    → c.task.app_fu ≡ unresolved
    → c.task.joins ≡ some (sequence list xs)
    → futures_of xs ≡ some fs
    → FailsWith (λ f r. looks f ≡ done r) future fs (failure e o rest)
    → (let d = context_of (handle_join_update looks inner c) in
        (d.task.status ≡ failed)
        × (d.task.app_fu ≡ done (err (join_error (failure e o rest) c.task.id)))
        × (d.task.fail_count ≡ c.task.fail_count + 1)
        × (d.task.fail_cost ≡ c.task.fail_cost))
join_fails looks inner xs fs e o rest c s h j g x =
    let (every, exceptions) = FailsWith-exceptions looks fs (failure e o rest) x in
    rw (join_eq looks inner xs fs c s j g, join_many_done looks fs c every, exceptions)
      (finish_join_err e o rest (sequence list (results_of looks fs)) c h)
