-- ===== src/Tasks.antt =====
-- The tasks that the workers run, of backend/app/workers/tasks.py: a task claims its resource,
-- works outside of any transaction, and then stores what came out of it if the resource is still
-- its own.
pub mod Leased
pub mod Analyze
pub mod Extract
pub mod Evaluate
pub mod Recover
pub mod Settled
pub mod Late
pub mod Lost
