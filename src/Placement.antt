-- ===== src/Placement.antt =====
-- shared/server_admission.py and services/langgraph/src/allocations.py: which server a project's
-- application is placed on.
pub mod Admission
pub mod Search
pub mod Chosen
pub mod Refused
pub mod Room
pub mod Samples
