-- ===== src/Dataflow/Kernel/Unwrapping.antt =====
-- Arguments that unwrap without a failure (`_unwrap_futures` of parsl/dataflow/dflow.py).
use text.Mathlib.Text.{◌==◌ as str_eq}
use parsl.Prelude.{
  String, ◌≡◌, refl, List, [], ◌∷◌, All, subst, Bool-cases, inl, inr, if◌then◌else◌,
}
use parsl.Dataflow.Objects.{
  Failures, no_failures, failure, Object, Futures, Result, Ref, ok, err, failures_append,
}
use parsl.Dataflow.Resolver.{DependencyResolver}
use parsl.Dataflow.Resolver.Laws.{IsLawful, Holds, Returns}
use parsl.Dataflow.Launch.{
  elements, inputs_of, gather_all_deps, keep, keep_kwarg, unwrap_futures, unwrap_list,
  unwrap_kwargs, gather_list, gather_kwargs,
}
use parsl.Dataflow.Resolver.Laws.{All-append_intro, gather_list-Held}

split_no_failures :
    (fs gs : Failures)
    → failures_append fs gs ≡ no_failures
    → (fs ≡ no_failures) × (gs ≡ no_failures)
unfolding failures_append
split_no_failures no_failures gs h = (refl, h)
split_no_failures (failure e o fs) gs h = cc

keep-Returns :
    (r : Result Object) (o : Object) (rest : List Object × Failures)
    → (keep r o rest).1 ≡ no_failures
    → Returns r × (rest.1 ≡ no_failures)
keep-Returns (ok v) o (vs, fs) h = ((v, refl), h)
keep-Returns (err e) o (vs, fs) h = cc

unwrap_list-Returns :
    (unwrap : Object → Result Object) (os : List Object)
    → (unwrap_list unwrap os).1 ≡ no_failures
    → All (λ o. Returns (unwrap o)) os
unfolding unwrap_list
unwrap_list-Returns unwrap [] h = tt
unwrap_list-Returns unwrap (o ∷ os) h =
    let (now, later) = keep-Returns (unwrap o) o (unwrap_list unwrap os) h in
    (now, unwrap_list-Returns unwrap os later)

keep_kwarg-Returns :
    (k : String) (r : Result Object) (o : Object) (rest : List (String × Object) × Failures)
    → (keep_kwarg k r o rest).1 ≡ no_failures
    → Returns r × (rest.1 ≡ no_failures)
keep_kwarg-Returns k (ok v) o (vs, fs) h = ((v, refl), h)
keep_kwarg-Returns k (err e) o (vs, fs) h = cc

unwrap_kwargs-Returns :
    (unwrap : Object → Result Object) (kw : List (String × Object))
    → (unwrap_kwargs unwrap kw).1 ≡ no_failures
    → All (λ (entry : String × Object). Returns (unwrap entry.1)) kw
unfolding unwrap_kwargs
unwrap_kwargs-Returns unwrap [] h = tt
unwrap_kwargs-Returns unwrap ((k, o) ∷ kw) h =
    let (now, later) = keep_kwarg-Returns k (unwrap o) o (unwrap_kwargs unwrap kw) h in
    (now, unwrap_kwargs-Returns unwrap kw later)

module _ (resolver : DependencyResolver) (lawful : IsLawful resolver) (looks : Futures) where
  abbrev Held : List Ref → Type 0
  Held = All (λ f. Holds (looks f))

  gather_kwargs-Held :
      (kw : List (String × Object))
      → All (λ (entry : String × Object). Returns (resolver.traverse_to_unwrap looks entry.1)) kw
      → Held (gather_kwargs resolver.traverse_to_gather kw)
  unfolding gather_kwargs
  gather_kwargs-Held [] h = tt
  gather_kwargs-Held ((k, o) ∷ kw) h =
      All-append_intro (λ f. Holds (looks f)) (resolver.traverse_to_gather o) _
        (lawful.holds looks o h.0) (gather_kwargs-Held kw h.1)

  abbrev AllReturn : List Object → Type 0
  AllReturn = All (λ o. Returns (resolver.traverse_to_unwrap looks o))

  -- One entry of the kwargs: the inputs are read from it, or from the entries after it.
  inputs-step :
      (k : String) (o : Object) (r : Result Object) (rest : List (String × Object) × Failures)
      (kw : List (String × Object))
      → resolver.traverse_to_unwrap looks o ≡ r
      → (keep_kwarg k r o rest).1 ≡ no_failures
      → AllReturn (inputs_of (keep_kwarg k r o rest).0)
      → (rest.1 ≡ no_failures
          → AllReturn (inputs_of rest.0)
          → Held (gather_list resolver.traverse_to_gather (inputs_of kw)))
      → Held (gather_list resolver.traverse_to_gather (inputs_of ((k, o) ∷ kw)))
  unfolding inputs_of
  inputs-step k o (err e) rest kw u h a later = cc
  inputs-step k o (ok v) (vs, fs) kw u h a later = elim (Bool-cases (str_eq k "inputs")) [
    | inl e ↦ rw e (
        lawful.inside looks o v u
          (subst (λ b. AllReturn (if b then elements v else inputs_of vs)) e a))
    | inr e ↦ rw e (later h (subst (λ b. AllReturn (if b then elements v else inputs_of vs)) e a))
  ]

  inputs-Held :
      (kw : List (String × Object))
      → (unwrap_kwargs (resolver.traverse_to_unwrap looks) kw).1 ≡ no_failures
      → AllReturn (inputs_of (unwrap_kwargs (resolver.traverse_to_unwrap looks) kw).0)
      → Held (gather_list resolver.traverse_to_gather (inputs_of kw))
  unfolding unwrap_kwargs inputs_of gather_list
  inputs-Held [] h a = tt
  inputs-Held ((k, o) ∷ kw) h a =
      inputs-step k o (resolver.traverse_to_unwrap looks o)
        (unwrap_kwargs (resolver.traverse_to_unwrap looks) kw) kw refl h a (inputs-Held kw)

  pub unwrap_futures-Held :
      (args : List Object) (kwargs : List (String × Object))
      → (unwrap_futures resolver looks args kwargs).2 ≡ no_failures
      → Held (gather_all_deps resolver args kwargs)
  unfolding unwrap_futures gather_all_deps
  unwrap_futures-Held args kwargs h =
      let unwrap = resolver.traverse_to_unwrap looks in
      let gather = resolver.traverse_to_gather in
      let (a, rest) = split_no_failures _ _ h in
      let (b, c) = split_no_failures _ _ rest in
      let each = gather_list-Held looks gather unwrap (lawful.holds looks) in
      All-append_intro (λ f. Holds (looks f)) (gather_list gather args) _
        (each args (unwrap_list-Returns unwrap args a))
        (All-append_intro (λ f. Holds (looks f)) (gather_kwargs gather kwargs) _
          (gather_kwargs-Held kwargs (unwrap_kwargs-Returns unwrap kwargs b))
          (inputs-Held kwargs b (unwrap_list-Returns unwrap _ c)))
