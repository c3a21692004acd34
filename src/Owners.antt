-- ===== src/Owners.antt =====
-- services/scheduler/src/tasks/owner_notifications.py: the messages that the owner of a story is owed.
pub mod Record
pub mod Fields
pub mod Delivery
pub mod Sweep
pub mod Written
pub mod Bounded
pub mod Facts
pub mod Truthful
mod Samples
