-- ===== src/Htex.antt =====
-- parsl/executors/high_throughput
pub mod Interchange
pub mod Mpi
pub mod Pool
pub mod Communicator
pub mod Affinity
pub mod Executor
pub mod ScaleIn
mod Examples
