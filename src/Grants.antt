-- ===== src/Grants.antt =====
-- services/api/src/routers/temporary_access.py: temporary access grants, and the readings of the
-- running service that close them.
pub mod Rows
pub mod Life
pub mod Observe
pub mod Requests
pub mod Steps
pub mod Refinement
pub mod Evidence
pub mod Exclusive
pub mod Escalation
pub mod Samples
