-- ===== src/Htex/Interchange.antt =====
-- parsl/executors/high_throughput/interchange.py: tasks are queued and sent to the managers, and
-- results come back. Sockets are lists of the messages sent; a task and a manager are ids.
pub mod State
pub mod Queue
pub mod Dispatch
pub mod Messages
pub mod Expire
pub mod Loop
pub mod Tables
pub mod Accounting
pub mod Turns
pub mod Runs
pub mod Selectors
pub mod Lost
pub mod Held
