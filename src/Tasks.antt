-- ===== src/Tasks.antt =====
-- services/api/src/routers/_task_helpers.py, _task_actions.py and tasks.py: the endpoints that
-- create tasks, move them along the transition table and record their history. An answer carries
-- the task itself where the source builds a `TaskRead` of it.
pub mod Helpers
pub mod Actions
pub mod Spawn
pub mod Crud
pub mod Requests
pub mod Steps
pub mod Moves
pub mod Paths
pub mod Refinement
pub mod History
pub mod Terminal
pub mod Outcomes
pub mod Launch
pub mod Atomic
pub mod Backlog
mod Samples
