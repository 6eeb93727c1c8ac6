-- ===== src/Server.antt =====
-- The server, src/server.c.
pub mod Budget
pub mod Pool
pub mod Leases
pub mod Clients
pub mod Entries
pub mod Reload
pub mod Steps
pub mod Data
