-- ===== src/Contracts.antt =====
-- The shared contracts (shared/contracts, shared/models): statuses, transition tables, rows and
-- queue messages. A JSON value that is only carried along is a `Json`; a moment is a number of
-- microseconds; `created_at` and `updated_at`, which the database keeps, are left out.
pub mod Column
pub mod Json
pub mod Task
pub mod Story
pub mod Run
pub mod Access
pub mod Message
pub mod Project
