-- ===== src/Dataflow.antt =====
-- The data flow kernel, parsl/dataflow.
pub mod Objects
pub mod Resolver
pub mod States
pub mod Record
pub mod Config
pub mod Joins
pub mod Exec
pub mod Launch
pub mod Failing
pub mod Memo
pub mod Keeps
pub mod Invariant
pub mod Kernel
mod Examples
