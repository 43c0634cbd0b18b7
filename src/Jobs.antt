-- ===== src/Jobs.antt =====
-- parsl/jobs, and the blocks of parsl/executors/status_handling.py.
pub mod States
pub mod Blocks
pub mod Strategy
pub mod ErrorHandlers
pub mod Poller
mod Examples
