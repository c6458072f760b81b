-- ===== src/Traffic/Server.antt =====
-- traffic/traffic.go: the goroutine `handlingServer`, which owns the maps of cameras, dispatchers,
-- sightings and tickets.
pub mod Types
pub mod Sightings
pub mod Peers
pub mod Handle
pub mod Marks
pub mod Tickets
pub mod Invariant
pub mod Safe
pub mod Cleanup
pub mod Once
pub mod Days
pub mod Issued
pub mod OneTicket
pub mod Validity
pub mod Pending
pub mod Sending
mod Tests
