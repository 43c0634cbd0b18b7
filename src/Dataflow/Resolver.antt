-- ===== src/Dataflow/Resolver.antt =====
-- parsl/dataflow/dependency_resolvers.py. The kernel takes either resolver as a value of
-- `DependencyResolver`; sets and dictionaries are not among the modelled values.
pub mod Laws
use parsl.Prelude.{List, [], ◌∷◌, ◌++◌}
use parsl.Dataflow.Objects.{
  Ref, Object, Items, Kind, Futures, FutureState, Result, ok, err, atom, exception_wrapper, future,
  sequence, nil, cons, unresolved, done, assertion_error,
}

pub record DependencyResolver : Type 0 where
  pub traverse_to_gather : Object → List Ref
  pub traverse_to_unwrap : Futures → Object → Result Object

-- `assert fut.done()`, then `fut.result()`.
unfoldable pub future_result : FutureState → Result Object
future_result unresolved = err assertion_error
future_result (done r) = r

unfoldable pub shallow_traverse_to_gather : Object → List Ref
shallow_traverse_to_gather (future f) = f ∷ []
shallow_traverse_to_gather _ = []

unfoldable pub shallow_traverse_to_unwrap : Futures → Object → Result Object
unfolding future_result
shallow_traverse_to_unwrap look (future f) = future_result (look f)
shallow_traverse_to_unwrap look o = ok o

mutual
  deep_traverse_to_gather : Object → List Ref
  deep_traverse_to_gather (future f) = f ∷ []
  deep_traverse_to_gather (sequence kind xs) = deep_gather_items xs
  deep_traverse_to_gather (atom n) = []
  deep_traverse_to_gather (exception_wrapper e) = []

  deep_gather_items : Items → List Ref
  deep_gather_items nil = []
  deep_gather_items (cons x xs) = deep_traverse_to_gather x ++ deep_gather_items xs

-- `type_(...)` over the unwrapped elements: the container is rebuilt, and the first exception
-- that an element raises leaves it.
abbrev rebuild : Kind → Result Items → Result Object
rebuild kind (ok xs) = ok (sequence kind xs)
rebuild kind (err e) = err e

abbrev prepend : Result Object → Result Items → Result Items
prepend (err e) rest = err e
prepend (ok x) (err e) = err e
prepend (ok x) (ok xs) = ok (cons x xs)

mutual
  deep_traverse_to_unwrap : Futures → Object → Result Object
  deep_traverse_to_unwrap look (future f) = future_result (look f)
  deep_traverse_to_unwrap look (sequence kind xs) = rebuild kind (deep_unwrap_items look xs)
  deep_traverse_to_unwrap look (atom n) = ok (atom n)
  deep_traverse_to_unwrap look (exception_wrapper e) = ok (exception_wrapper e)

  deep_unwrap_items : Futures → Items → Result Items
  deep_unwrap_items look nil = ok nil
  deep_unwrap_items look (cons x xs) =
      prepend (deep_traverse_to_unwrap look x) (deep_unwrap_items look xs)

unfoldable pub shallow_dependency_resolver : DependencyResolver
unfolding shallow_traverse_to_gather shallow_traverse_to_unwrap
shallow_dependency_resolver = record {
  traverse_to_gather = shallow_traverse_to_gather;
  traverse_to_unwrap = shallow_traverse_to_unwrap;
}

unfoldable pub deep_dependency_resolver : DependencyResolver
unfolding deep_traverse_to_gather deep_traverse_to_unwrap
deep_dependency_resolver = record {
  traverse_to_gather = deep_traverse_to_gather;
  traverse_to_unwrap = deep_traverse_to_unwrap;
}
