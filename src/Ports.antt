-- ===== src/Ports.antt =====
-- services/api/src/routers/servers.py: the ports of a server.
pub mod Allocation
pub mod Least
pub mod Answered
mod Samples
