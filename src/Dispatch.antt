-- ===== src/Dispatch.antt =====
-- services/scheduler/src/tasks/task_dispatcher.py: the loop that hands todo tasks to workers, as a
-- client of the API.
pub mod Reads
pub mod Client
pub mod Attempts
pub mod Recipient
pub mod Publish
pub mod Tick
pub mod Hoare
pub mod Guards
pub mod Siblings
pub mod Phases
pub mod Prior
pub mod Eligible
pub mod OneWorker
pub mod Frame
pub mod Snapshot
pub mod Invariant
mod Samples
