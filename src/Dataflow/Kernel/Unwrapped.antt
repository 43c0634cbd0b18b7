-- ===== src/Dataflow/Kernel/Unwrapped.antt =====
-- The failures that the launch of a task collects (`_unwrap_futures` of parsl/dataflow/dflow.py).
use text.Mathlib.Text.{◌==◌ as str_eq}
use parsl.Prelude.{String, true, false, ◌≡◌, ◌⊎◌, refl, sym, ap, ◌∙◌, List, [], ◌∷◌, ◌++◌, inl, inr}
use parsl.Dataflow.Objects.{
  Error, Failures, failure, Object, Futures, Result, ok, err, failures_append,
}
use parsl.Dataflow.Resolver.{DependencyResolver}
use parsl.Dataflow.Launch.{
  elements, inputs_of, keep, keep_kwarg, unwrap_futures, unwrap_list, unwrap_kwargs,
}
use parsl.Dataflow.Failing.{FailsWith, ReadsInputs, values}

keep_ok :
    (r : Result Object) (v o : Object) (rest : List Object × Failures)
    → r ≡ ok v
    → (keep r o rest).1 ≡ rest.1
keep_ok (ok w) v o rest h = refl
keep_ok (err e) v o rest h = cc

keep_err :
    (r : Result Object) (e : Error) (o : Object) (rest : List Object × Failures)
    → r ≡ err e
    → (keep r o rest).1 ≡ failure e o rest.1
keep_err (ok w) e o rest h = cc
keep_err (err d) e o rest h = cc

keep_append :
    (r : Result Object) (o : Object) (whole rest : List Object × Failures) (more : Failures)
    → whole.1 ≡ failures_append rest.1 more
    → (keep r o whole).1 ≡ failures_append (keep r o rest).1 more
unfolding failures_append
keep_append (ok v) o whole rest more h = h
keep_append (err e) o whole rest more h = ap (λ fs. failure e o fs) h

keep_kwarg-keep :
    (k : String) (r : Result Object) (o : Object) (kw : List (String × Object) × Failures)
    (os : List Object × Failures)
    → kw.1 ≡ os.1
    → (keep_kwarg k r o kw).1 ≡ (keep r o os).1
keep_kwarg-keep k (ok v) o kw os h = h
keep_kwarg-keep k (err e) o kw os h = ap (λ fs. failure e o fs) h

module _ (unwrap : Object → Result Object) where
  FailsWith-unwrap_list :
      (os : List Object) (fs : Failures)
      → FailsWith (λ o r. unwrap o ≡ r) (λ o. o) os fs
      → (unwrap_list unwrap os).1 ≡ fs
  unfolding unwrap_list
  FailsWith-unwrap_list [] fs h = sym h
  FailsWith-unwrap_list (o ∷ os) fs (inl (v, u, h)) =
      keep_ok (unwrap o) v o _ u ∙ FailsWith-unwrap_list os fs h
  FailsWith-unwrap_list (o ∷ os) fs (inr (e, rest, u, here, h)) =
      keep_err (unwrap o) e o _ u
      ∙ ap (λ gs. failure e o gs) (FailsWith-unwrap_list os rest h)
      ∙ sym here

  unwrap_list-append :
      (os ps : List Object)
      → (unwrap_list unwrap (os ++ ps)).1
        ≡ failures_append (unwrap_list unwrap os).1 (unwrap_list unwrap ps).1
  unfolding unwrap_list failures_append
  unwrap_list-append [] ps = refl
  unwrap_list-append (o ∷ os) ps =
      keep_append (unwrap o) o (unwrap_list unwrap (os ++ ps)) (unwrap_list unwrap os) _
        (unwrap_list-append os ps)

  unwrap_kwargs-values :
      (kw : List (String × Object))
      → (unwrap_kwargs unwrap kw).1 ≡ (unwrap_list unwrap (values kw)).1
  unfolding unwrap_kwargs unwrap_list
  unwrap_kwargs-values [] = refl
  unwrap_kwargs-values ((k, o) ∷ kw) =
      keep_kwarg-keep k (unwrap o) o (unwrap_kwargs unwrap kw) _ (unwrap_kwargs-values kw)

  -- The value that a keyword argument has after the pass over the kwargs.
  read_here :
      (k : String) (r : Result Object) (o : Object) (rest : List (String × Object) × Failures)
      (inputs : List Object)
      → str_eq k "inputs" ≡ true
      → ((v : Object) × (r ≡ ok v) × (inputs ≡ elements v))
        ⊎ ((e : Error) × (r ≡ err e) × (inputs ≡ elements o))
      → inputs_of (keep_kwarg k r o rest).0 ≡ inputs
  unfolding inputs_of
  read_here k (ok w) o rest inputs s (inl (v, u, h)) = rw s (let same : w ≡ v = cc in cc)
  read_here k (ok w) o rest inputs s (inr (e, u, h)) = cc
  read_here k (err d) o rest inputs s (inl (v, u, h)) = cc
  read_here k (err d) o rest inputs s (inr (e, u, h)) = rw s (sym h)

  read_later :
      (k : String) (r : Result Object) (o : Object) (rest : List (String × Object) × Failures)
      → str_eq k "inputs" ≡ false
      → inputs_of (keep_kwarg k r o rest).0 ≡ inputs_of rest.0
  unfolding inputs_of
  read_later k (ok w) o rest s = rw s refl
  read_later k (err d) o rest s = rw s refl

  reads_inputs :
      (kw : List (String × Object)) (inputs : List Object)
      → ReadsInputs unwrap kw inputs
      → inputs_of (unwrap_kwargs unwrap kw).0 ≡ inputs
  unfolding unwrap_kwargs inputs_of
  reads_inputs [] inputs h = sym h
  reads_inputs ((k, o) ∷ kw) inputs (inl (s, h)) = read_here k (unwrap o) o _ inputs s h
  reads_inputs ((k, o) ∷ kw) inputs (inr (s, h)) =
      read_later k (unwrap o) o _ s ∙ reads_inputs kw inputs h

-- The failures of the arguments, the keyword arguments and the inputs, in this order.
pub unwrap_futures-FailsWith :
    (resolver : DependencyResolver) (looks : Futures) (args : List Object)
    (kwargs : List (String × Object)) (inputs : List Object) (fs : Failures)
    → ReadsInputs (resolver.traverse_to_unwrap looks) kwargs inputs
    → FailsWith
        (λ o r. resolver.traverse_to_unwrap looks o ≡ r)
        (λ o. o)
        (args ++ (values kwargs ++ inputs))
        fs
    → (unwrap_futures resolver looks args kwargs).2 ≡ fs
unfolding unwrap_futures
unwrap_futures-FailsWith resolver looks args kwargs inputs fs reads fails =
    let unwrap = resolver.traverse_to_unwrap looks in
    let a = (unwrap_list unwrap args).1 in
    ap (failures_append a) (
      ap (λ f. failures_append f (unwrap_list unwrap (inputs_of (unwrap_kwargs unwrap kwargs).0)).1)
        (unwrap_kwargs-values unwrap kwargs)
      ∙ ap (λ l. failures_append (unwrap_list unwrap (values kwargs)).1 (unwrap_list unwrap l).1)
          (reads_inputs unwrap kwargs inputs reads)
      ∙ sym (unwrap_list-append unwrap (values kwargs) inputs))
    ∙ sym (unwrap_list-append unwrap args (values kwargs ++ inputs))
    ∙ FailsWith-unwrap_list unwrap (args ++ (values kwargs ++ inputs)) fs fails
