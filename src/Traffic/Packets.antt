-- ===== src/Traffic/Packets.antt =====
-- traffic/packets.go: the packets and their opcodes. Numbers of 16 and 32 bits are plain numbers,
-- whose range is the predicate of each packet.
use protohackers_go.Prelude.{ℕ, ◌^◌, ◌<◌, List, nat_eq, bytes_eq, Bytes, length, All}

pub record IAmCamera : Type 0 where
  pub road : ℕ
  pub mile : ℕ
  pub limit : ℕ

pub record IAmDispatcher : Type 0 where
  pub roads : List ℕ

pub record ErrorPacket : Type 0 where
  pub message : Bytes

pub record Plate : Type 0 where
  pub plate : Bytes
  pub timestamp : ℕ

pub record Ticket : Type 0 where
  pub plate : Bytes
  pub road : ℕ
  pub mile1 : ℕ
  pub timestamp1 : ℕ
  pub mile2 : ℕ
  pub timestamp2 : ℕ
  pub speed : ℕ

pub record WantHeartbeat : Type 0 where
  pub interval : ℕ

pub data Packet : Type 0 where
  camera : IAmCamera → Packet
  dispatcher : IAmDispatcher → Packet
  error_packet : ErrorPacket → Packet
  plate_packet : Plate → Packet
  ticket_packet : Ticket → Packet
  want_heartbeat : WantHeartbeat → Packet
  heartbeat : Packet

unfoldable pub opcode : Packet → ℕ
opcode (camera p) = 0x80
opcode (dispatcher p) = 0x81
opcode (error_packet p) = 0x10
opcode (plate_packet p) = 0x20
opcode (ticket_packet p) = 0x21
opcode (want_heartbeat p) = 0x40
opcode heartbeat = 0x41

abbrev pub IsU16 : ℕ → Type 0
IsU16 v = v < 2 ^ 16

abbrev pub IsU32 : ℕ → Type 0
IsU32 v = v < 2 ^ 32

-- The fields are in the range of their Go types, and a length fits the byte that it is sent in.
abbrev pub Fits : Packet → Type 0
Fits (camera p) = IsU16 p.road × IsU16 p.mile × IsU16 p.limit
Fits (dispatcher p) = (length p.roads < 256) × All IsU16 p.roads
Fits (error_packet p) = length p.message < 256
Fits (plate_packet p) = (length p.plate < 256) × IsU32 p.timestamp
Fits (ticket_packet p) =
    (length p.plate < 256)
    × IsU16 p.road
    × IsU16 p.mile1
    × IsU32 p.timestamp1
    × IsU16 p.mile2
    × IsU32 p.timestamp2
    × IsU16 p.speed
Fits (want_heartbeat p) = IsU32 p.interval
Fits heartbeat = Unit
