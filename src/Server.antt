-- ===== src/Server.antt =====
-- The servers of server/ that the services run on.
pub mod Udp
pub mod Tcp
pub mod Interleaving
pub mod Sessions
mod Tests
