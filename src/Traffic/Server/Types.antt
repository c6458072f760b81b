-- ===== src/Traffic/Server/Types.antt =====
-- The variables of `handlingServer` in traffic/traffic.go, its messages and what it writes.
use protohackers_go.Prelude.{
  ℕ, ◌/◌, Bool, true, false, Option, none, List, [], nat_eq, bytes_eq, Bytes, update,
}
use protohackers_go.Traffic.Packets.{IAmCamera, IAmDispatcher, Ticket, Packet}
use protohackers_go.Traffic.Balancer.{Balancer}

-- The `float32` operations that the check of the speed uses; a number that the comparison or a
-- conversion takes comes from `from_uint`.
pub record Float32 : Type 1 where
  pub F : Type 0
  pub from_uint : ℕ → F
  pub divide : F → F → F
  pub multiply : F → F → F
  pub greater : F → F → Bool
  pub to_uint16 : F → ℕ

pub record PlateInfo : Type 0 where
  pub plate : Bytes
  pub timestamp : ℕ
  pub road : ℕ
  pub mile : ℕ

-- What a connection sends: `disconnected`, `connected`, a packet, or the nil packet that follows an
-- opcode which is none of a client's.
pub data Message : Type 0 where
  connected : Message
  disconnected : Message
  received : Packet → Message
  nothing : Message

-- What the server does outside its maps: answers, tickets sent, heartbeats started and stopped, and the
-- log line for each day that a ticket is set for.
pub data Effect : Type 0 where
  write_error : ℕ → Bytes → Effect
  send_ticket : ℕ → Ticket → Effect
  start_heartbeat : ℕ → ℕ → Effect
  stop_heartbeat : ℕ → Effect
  ticket_set : Bytes → ℕ → Effect

-- `day_plates d p` is whether the map of day `d` has the plate `p`; a missing map has none.
abbrev pub DayPlates : Type 0
DayPlates = ℕ → Bytes → Bool

pub record Server : Type 0 where
  pub clients : ℕ → Bool
  pub heartbeats : ℕ → Bool
  pub cameras : ℕ → Option IAmCamera
  pub readings : Bytes → List PlateInfo
  pub dispatchers : ℕ → Option IAmDispatcher
  pub road_dispatchers : ℕ → Option (Balancer ℕ)
  pub tickets : ℕ → List Ticket
  pub day_plates : DayPlates

unfoldable pub initial : Server
initial = record {
  clients = λ c. false;
  heartbeats = λ c. false;
  cameras = λ c. none;
  readings = λ p. [];
  dispatchers = λ c. none;
  road_dispatchers = λ r. none;
  tickets = λ r. [];
  day_plates = λ d p. false;
}

-- `int(math.Floor(float64(timestamp) / 86400))`, which is exact for 32-bit timestamps.
abbrev pub day_of : ℕ → ℕ
day_of timestamp = timestamp / 86400

-- `dayPlates[d][p] = struct{}{}`.
abbrev pub mark : DayPlates → ℕ → Bytes → DayPlates
mark days d p = update days d (update (days d) p true)
