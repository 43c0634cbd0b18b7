-- ===== src/Dataflow/Memo.antt =====
-- Memoization and checkpoints: parsl/dataflow/memoization.py, and handle_app_update and checkpoint of
-- parsl/dataflow/dflow.py.
pub mod Hash
pub mod Same
pub mod Calls
pub mod Memoizer
pub mod Checkpoint
pub mod Reuse
pub mod History
pub mod Finishing
pub mod Written
pub mod Kept
pub mod Raising
pub mod Restart
pub mod Kwargs
pub mod Ignored
mod Examples
