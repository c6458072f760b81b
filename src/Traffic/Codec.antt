-- ===== src/Traffic/Codec.antt =====
-- traffic/packets_gen.go: the packets as bytes and back.
pub mod Marshal
pub mod Unmarshal
pub mod RoundTrip
pub mod Fragments
mod Tests
