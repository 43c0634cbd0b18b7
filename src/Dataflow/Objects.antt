-- ===== src/Dataflow/Objects.antt =====
-- The Python values that the kernel inspects, and the futures that it waits for
-- (parsl/dataflow/errors.py and concurrent.futures of the standard library).
use parsl.Prelude.{ℕ, Bool, true, false, List, [], ◌∷◌}

-- A future is named, not copied: the future of a task of this kernel, or any other one.
pub data Ref : Type 0 where
  app_future other_future : ℕ → Ref

pub data Kind : Type 0 where
  list tuple : Kind

-- `raised n` is an exception of code outside the kernel, by its identity. A failure is an
-- exception with the argument or future that held it, which the source renders as text.
-- `atom n` is a value that the kernel does not look into.
mutual
  pub data Error : Type 0 where
    raised : ℕ → Error
    dependency_error join_error : Failures → ℕ → Error
    join_type_error assertion_error : Error
    invalid_executor : ℕ → Error

  pub data Failures : Type 0 where
    no_failures : Failures
    failure : Error → Object → Failures → Failures

  pub data Object : Type 0 where
    atom : ℕ → Object
    exception_wrapper : Error → Object
    future : Ref → Object
    sequence : Kind → Items → Object

  pub data Items : Type 0 where
    nil : Items
    cons : Object → Items → Items

pub data Result {ℓ} (A : Type ℓ) : Type ℓ where
  ok : A → Result A
  err : Error → Result A

-- What a future holds. `result()` of a done future returns the value or raises the exception.
pub data FutureState : Type 0 where
  unresolved : FutureState
  done : Result Object → FutureState

abbrev pub is_done : FutureState → Bool
is_done unresolved = false
is_done (done r) = true

abbrev pub Futures : Type 0
Futures = Ref → FutureState

unfoldable pub to_list : Items → List Object
to_list nil = []
to_list (cons x xs) = x ∷ to_list xs

unfoldable pub from_list : List Object → Items
from_list [] = nil
from_list (x ∷ xs) = cons x (from_list xs)

unfoldable pub failures_append : Failures → Failures → Failures
failures_append no_failures gs = gs
failures_append (failure e o fs) gs = failure e o (failures_append fs gs)
