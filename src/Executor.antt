-- ===== src/Executor.antt =====
-- executor.py: the execution of one Run.
pub mod Outcome
pub mod Scheduler
pub mod Skips
pub mod Launch
pub mod Attempts
pub mod Loop
pub mod Resume
pub mod Ends
pub mod Retries
pub mod Reached
pub mod Sound
pub mod Nodes
