-- ===== src/Stories.antt =====
-- services/api/src/routers/stories.py: the endpoints that create stories and move them along the
-- transition table.
pub mod Actions
pub mod Crud
pub mod Requests
pub mod Steps
pub mod Terminal
pub mod Outcomes
pub mod Retry
pub mod Samples
