-- ===== src/Runs.antt =====
-- services/api/src/routers/runs.py: runs, their outcomes, and the boundary that a deploy crosses
-- when it starts work outside the system.
pub mod Rows
pub mod Boundary
pub mod Update
pub mod Requests
pub mod Steps
pub mod Keeps
pub mod Settled
pub mod Recorded
pub mod Claims
pub mod Lease
pub mod Stamped
pub mod Samples
