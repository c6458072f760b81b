-- ===== src/Traffic.antt =====
-- The package traffic: road cameras, dispatchers and speeding tickets.
pub mod Balancer
pub mod Packets
pub mod Codec
pub mod Server
pub mod Client
pub mod Durations
pub mod Heartbeat
pub mod Starts
pub mod Service
mod Tests
