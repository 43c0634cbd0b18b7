-- ===== src/Dataflow/Failing.antt =====
-- Which failures a row of arguments or futures of a task has, said without the loops of
-- parsl/dataflow/dflow.py that collect them, and which `inputs` a launch reads.
use text.Mathlib.Text.{◌==◌ as str_eq}
use parsl.Prelude.{String, true, false, ◌≡◌, List, [], ◌∷◌, ◌⊎◌}
use parsl.Dataflow.Objects.{Error, Failures, no_failures, failure, Object, Result, ok, err}
use parsl.Dataflow.Launch.{elements}

-- `Outcome x r` says that `x` gives `r`. The failures are those of all that give an exception, in
-- order, each with the object that gave it.
abbrev pub FailsWith {ℓ} :
    {A : Type ℓ}
    → (Outcome : A → Result Object → Type 0) → (object : A → Object) → List A
    → Failures
    → Type 0
FailsWith Outcome object [] fs = fs ≡ no_failures
FailsWith Outcome object (x ∷ xs) fs =
    ((v : Object) × Outcome x (ok v) × FailsWith Outcome object xs fs)
    ⊎ ((e : Error) × (rest : Failures) × Outcome x (err e)
        × (fs ≡ failure e (object x) rest)
        × FailsWith Outcome object xs rest)

-- The values of keyword arguments.
abbrev pub values : List (String × Object) → List Object
values [] = []
values ((k, o) ∷ kwargs) = o ∷ values kwargs

-- The elements of the value that `inputs` unwraps to, or of `inputs` itself if it does not unwrap.
abbrev pub ReadsInputs :
    (unwrap : Object → Result Object) → List (String × Object) → List Object → Type 0
ReadsInputs unwrap [] inputs = inputs ≡ []
ReadsInputs unwrap ((k, o) ∷ kwargs) inputs =
    ((str_eq k "inputs" ≡ true)
      × (((v : Object) × (unwrap o ≡ ok v) × (inputs ≡ elements v))
          ⊎ ((e : Error) × (unwrap o ≡ err e) × (inputs ≡ elements o))))
    ⊎ ((str_eq k "inputs" ≡ false) × ReadsInputs unwrap kwargs inputs)
