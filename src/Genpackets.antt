-- ===== src/Genpackets.antt =====
-- genpackets/genpackets.go: the program that writes the packets' methods.
pub mod Source
pub mod Template
pub mod Run
pub mod Fields
pub mod RoundTrip
pub mod Steps
pub mod Packets
pub mod Search
pub mod Select
pub mod Checks
pub mod Imports
pub mod Compiles
mod Tests
