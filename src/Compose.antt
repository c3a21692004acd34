-- ===== src/Compose.antt =====
-- services/worker-manager/src/compose_validator.py: which Docker Compose commands and projects a
-- worker may run.
pub mod Command
pub mod Scope
pub mod Grammar
pub mod Accepted
mod Samples
