-- ===== src/Dataflow/Config.antt =====
-- The parts of parsl/config.py that the kernel's handlers read.
use parsl.Prelude.{ℕ, String, Option, List}
use parsl.Dataflow.Objects.{Error, Result}
use parsl.Dataflow.Resolver.{DependencyResolver}
use parsl.Dataflow.Record.{TaskRecord}

-- The parts of `Config` that the handlers read. Costs are counted in a unit that makes the retry
-- handler's costs whole numbers, and `retries` and one failure are given in that unit.
pub record Config : Type 0 where
  pub retries : ℕ
  pub failure_cost : ℕ
  pub retry_handler : Option (Error → TaskRecord → Result ℕ)
  pub executors : List String
  pub dependency_resolver : DependencyResolver
