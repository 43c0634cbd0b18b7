-- ===== src/Dataflow/Resolver/Laws.antt =====
-- What the kernel relies on of a resolver (parsl/dataflow/dependency_resolvers.py): an object
-- unwraps to a value exactly when every future that was gathered from it holds a value. Where
-- its value, read as `inputs`, has elements that unwrap, so do the elements that were gathered.
use parsl.Prelude.{List, [], ◌∷◌, ◌++◌, ◌≡◌, refl, sym, ap, subst, All, ◌↔◌}
use parsl.Dataflow.Objects.{
  Ref, Object, Items, Futures, Result, ok, err, atom, exception_wrapper, future, sequence, nil,
  cons, unresolved, done, FutureState, Kind, to_list,
}
use parsl.Dataflow.Launch.{elements, gather_list}
use parsl.Dataflow.Resolver.{
  DependencyResolver, future_result, shallow_traverse_to_gather, shallow_traverse_to_unwrap,
  deep_traverse_to_gather, deep_gather_items, deep_traverse_to_unwrap, deep_unwrap_items,
  shallow_dependency_resolver, deep_dependency_resolver, rebuild, prepend,
}

-- The future holds a value.
abbrev pub Holds : FutureState → Type 0
Holds s = (v : Object) × (s ≡ done (ok v))

abbrev pub Returns {ℓ} : {A : Type ℓ} → Result A → Type ℓ
Returns {A = A} r = (v : A) × (r ≡ ok v)

pub record IsLawful (resolver : DependencyResolver) : Type 0 where
  pub returns :
      (look : Futures) (o : Object)
      → All (λ f. Holds (look f)) (resolver.traverse_to_gather o)
      → Returns (resolver.traverse_to_unwrap look o)
  pub holds :
      (look : Futures) (o : Object)
      → Returns (resolver.traverse_to_unwrap look o)
      → All (λ f. Holds (look f)) (resolver.traverse_to_gather o)
  pub inside :
      (look : Futures) (o v : Object)
      → resolver.traverse_to_unwrap look o ≡ ok v
      → All (λ x. Returns (resolver.traverse_to_unwrap look x)) (elements v)
      → All (λ f. Holds (look f)) (gather_list resolver.traverse_to_gather (elements o))

pub All-append_intro {ℓ κ} :
    {A : Type ℓ} (P : A → Type κ) (xs ys : List A) → All P xs → All P ys → All P (xs ++ ys)
All-append_intro P [] ys hx hy = hy
All-append_intro P (x ∷ xs) ys hx hy = (hx.0, All-append_intro P xs ys hx.1 hy)

pub All-append_elim {ℓ κ} :
    {A : Type ℓ} (P : A → Type κ) (xs ys : List A) → All P (xs ++ ys) → All P xs × All P ys
All-append_elim P [] ys h = (tt, h)
All-append_elim P (x ∷ xs) ys h = let (hx, hy) = All-append_elim P xs ys h.1 in ((h.0, hx), hy)

future_result-Returns : (s : FutureState) → Holds s → Returns (future_result s)
unfolding future_result
future_result-Returns unresolved (v, e) = cc
future_result-Returns (done r) (v, e) = (v, cc)

future_result-Holds : (s : FutureState) → Returns (future_result s) → Holds s
unfolding future_result
future_result-Holds unresolved (v, e) = cc
future_result-Holds (done r) (v, e) = (v, cc)

module _ (look : Futures) where
  abbrev Held : List Ref → Type 0
  Held = All (λ f. Holds (look f))

  shallow-Returns :
      (o : Object)
      → Held (shallow_traverse_to_gather o)
      → Returns (shallow_traverse_to_unwrap look o)
  unfolding shallow_traverse_to_gather shallow_traverse_to_unwrap
  shallow-Returns (future f) h = future_result-Returns (look f) h.0
  shallow-Returns o h = (o, refl)

  shallow_holds :
      (o : Object)
      → Returns (shallow_traverse_to_unwrap look o)
      → Held (shallow_traverse_to_gather o)
  unfolding shallow_traverse_to_gather shallow_traverse_to_unwrap
  shallow_holds (future f) h = (future_result-Holds (look f) h, tt)
  shallow_holds _ h = tt

  rebuild-Returns : (kind : Kind) (r : Result Items) → Returns r → Returns (rebuild kind r)
  rebuild-Returns kind (ok xs) h = (sequence kind xs, refl)
  rebuild-Returns kind (err e) (v, h) = cc

  rebuild-Returns_inv : (kind : Kind) (r : Result Items) → Returns (rebuild kind r) → Returns r
  rebuild-Returns_inv kind (ok xs) h = (xs, refl)
  rebuild-Returns_inv kind (err e) (v, h) = cc

  prepend-Returns :
      (x : Result Object) (r : Result Items) → Returns x → Returns r → Returns (prepend x r)
  prepend-Returns (ok x) (ok xs) h k = (cons x xs, refl)
  prepend-Returns (ok x) (err e) h (v, k) = cc
  prepend-Returns (err e) r (v, h) k = cc

  prepend-Returns_inv :
      (x : Result Object) (r : Result Items) → Returns (prepend x r) → Returns x × Returns r
  prepend-Returns_inv (ok x) (ok xs) h = ((x, refl), (xs, refl))
  prepend-Returns_inv (ok x) (err e) (v, h) = cc
  prepend-Returns_inv (err e) r (v, h) = cc

  mutual
    unfolding deep_traverse_to_gather deep_traverse_to_unwrap

    deep-Returns :
        (o : Object) → Held (deep_traverse_to_gather o) → Returns (deep_traverse_to_unwrap look o)
    deep-Returns (future f) h = future_result-Returns (look f) h.0
    deep-Returns (sequence kind xs) h = rebuild-Returns kind _ (deep_items-Returns xs h)
    deep-Returns (atom n) h = (atom n, refl)
    deep-Returns (exception_wrapper e) h = (exception_wrapper e, refl)

    deep_items-Returns :
        (xs : Items) → Held (deep_gather_items xs) → Returns (deep_unwrap_items look xs)
    deep_items-Returns nil h = (nil, refl)
    deep_items-Returns (cons x xs) h =
        let (hx, hs) = All-append_elim (λ f. Holds (look f)) (deep_traverse_to_gather x) _ h in
        prepend-Returns _ _ (deep-Returns x hx) (deep_items-Returns xs hs)

  mutual
    unfolding deep_traverse_to_gather deep_traverse_to_unwrap

    deep_holds :
        (o : Object) → Returns (deep_traverse_to_unwrap look o) → Held (deep_traverse_to_gather o)
    deep_holds (future f) h = (future_result-Holds (look f) h, tt)
    deep_holds (sequence kind xs) h = deep_holds_items xs (rebuild-Returns_inv kind _ h)
    deep_holds (atom n) h = tt
    deep_holds (exception_wrapper e) h = tt

    deep_holds_items :
        (xs : Items) → Returns (deep_unwrap_items look xs) → Held (deep_gather_items xs)
    deep_holds_items nil h = tt
    deep_holds_items (cons x xs) h =
        let (hx, hs) = prepend-Returns_inv (deep_traverse_to_unwrap look x) _ h in
        All-append_intro (λ f. Holds (look f)) (deep_traverse_to_gather x) _ (deep_holds x hx)
          (deep_holds_items xs hs)

  pub gather_list-Held :
      (gather : Object → List Ref) (unwrap : Object → Result Object)
      → ((o : Object) → Returns (unwrap o) → Held (gather o))
      → (os : List Object) → All (λ o. Returns (unwrap o)) os
      → Held (gather_list gather os)
  unfolding gather_list
  gather_list-Held gather unwrap holds [] h = tt
  gather_list-Held gather unwrap holds (o ∷ os) h =
      All-append_intro (λ f. Holds (look f)) (gather o) _ (holds o h.0)
        (gather_list-Held gather unwrap holds os h.1)

  shallow_inside :
      (o v : Object)
      → shallow_traverse_to_unwrap look o ≡ ok v
      → All (λ x. Returns (shallow_traverse_to_unwrap look x)) (elements v)
      → Held (gather_list shallow_traverse_to_gather (elements o))
  unfolding elements gather_list shallow_traverse_to_unwrap
  shallow_inside (sequence kind xs) v u h =
      let same : sequence kind xs ≡ v = cc in
      gather_list-Held shallow_traverse_to_gather (shallow_traverse_to_unwrap look) shallow_holds
        (elements (sequence kind xs))
        (subst (λ x. All (λ y. Returns (shallow_traverse_to_unwrap look y)) (elements x)) (sym same)
          h)
  shallow_inside (future f) v u h = tt
  shallow_inside (atom n) v u h = tt
  shallow_inside (exception_wrapper e) v u h = tt

  gather_items-eq :
      (xs : Items) → gather_list deep_traverse_to_gather (to_list xs) ≡ deep_gather_items xs
  unfolding gather_list to_list deep_traverse_to_gather
  gather_items-eq nil = refl
  gather_items-eq (cons x xs) =
      ap (λ (fs : List Ref). deep_traverse_to_gather x ++ fs) (gather_items-eq xs)

  deep_inside :
      (o v : Object)
      → deep_traverse_to_unwrap look o ≡ ok v
      → All (λ x. Returns (deep_traverse_to_unwrap look x)) (elements v)
      → Held (gather_list deep_traverse_to_gather (elements o))
  unfolding elements gather_list deep_traverse_to_gather
  deep_inside (sequence kind xs) v u h =
      subst Held (sym (gather_items-eq xs)) (deep_holds (sequence kind xs) (v, u))
  deep_inside (future f) v u h = tt
  deep_inside (atom n) v u h = tt
  deep_inside (exception_wrapper e) v u h = tt

pub shallow_dependency_resolver-IsLawful : IsLawful shallow_dependency_resolver
unfolding shallow_dependency_resolver
shallow_dependency_resolver-IsLawful = record {
  returns = shallow-Returns;
  holds = shallow_holds;
  inside = shallow_inside;
}

deep_dependency_resolver-IsLawful : IsLawful deep_dependency_resolver
unfolding deep_dependency_resolver
deep_dependency_resolver-IsLawful = record {
  returns = deep-Returns;
  holds = deep_holds;
  inside = deep_inside;
}

-- With the deep resolver an argument, whatever lists and tuples it nests, unwraps to a value
-- exactly when every future gathered from it holds a value.
pub deep_unwraps_iff :
    (look : Futures) (o : Object)
    → All (λ f. Holds (look f)) (deep_dependency_resolver.traverse_to_gather o)
      ↔ Returns (deep_dependency_resolver.traverse_to_unwrap look o)
deep_unwraps_iff look o = (
  deep_dependency_resolver-IsLawful.returns look o,
  deep_dependency_resolver-IsLawful.holds look o,
)
