-- ===== src/Traffic/Codec/Unmarshal.antt =====
-- The Unmarshal methods of traffic/packets_gen.go. They fill a packet that is then complete, or fail.
use protohackers_go.Prelude.{nat_eq, bytes_eq, Bytes, length}
use protohackers_go.Reader.Conn.{R, ◌>>=◌, return}
use protohackers_go.Reader.{read_n, read_byte, read_u16, read_u32, read_u16s}
use protohackers_go.Traffic.Packets.{
  IAmCamera, IAmDispatcher, ErrorPacket, Plate, Ticket, WantHeartbeat, Packet, camera, dispatcher,
  error_packet, plate_packet, ticket_packet, want_heartbeat, heartbeat,
}

-- A length byte and the string.
unfoldable pub unmarshal_string : R Bytes
unmarshal_string = do length ← read_byte; read_n length

unfoldable pub unmarshal_camera : R IAmCamera
unmarshal_camera = do
  road ← read_u16
  mile ← read_u16
  limit ← read_u16
  return (record { road = road; mile = mile; limit = limit })

unfoldable pub unmarshal_dispatcher : R IAmDispatcher
unmarshal_dispatcher = do
  length ← read_byte
  roads ← read_u16s length
  return (record { roads = roads })

unfoldable pub unmarshal_error : R ErrorPacket
unfolding unmarshal_string
unmarshal_error = do message ← unmarshal_string; return (record { message = message })

unfoldable pub unmarshal_plate : R Plate
unfolding unmarshal_string
unmarshal_plate = do
  plate ← unmarshal_string
  timestamp ← read_u32
  return (record { plate = plate; timestamp = timestamp })

unfoldable pub unmarshal_ticket : R Ticket
unfolding unmarshal_string
unmarshal_ticket = do
  plate ← unmarshal_string
  road ← read_u16
  mile1 ← read_u16
  timestamp1 ← read_u32
  mile2 ← read_u16
  timestamp2 ← read_u32
  speed ← read_u16
  return (record {
    plate = plate;
    road = road;
    mile1 = mile1;
    timestamp1 = timestamp1;
    mile2 = mile2;
    timestamp2 = timestamp2;
    speed = speed;
  })

unfoldable pub unmarshal_want_heartbeat : R WantHeartbeat
unmarshal_want_heartbeat = do interval ← read_u32; return (record { interval = interval })

unfoldable pub unmarshal_heartbeat : R (Unit {0})
unmarshal_heartbeat = return tt

-- The method that belongs to the packet `p`, whose fields it replaces.
unfoldable pub unmarshal : Packet → R Packet
unmarshal (camera p) = do q ← unmarshal_camera; return (camera q)
unmarshal (dispatcher p) = do q ← unmarshal_dispatcher; return (dispatcher q)
unmarshal (error_packet p) = do q ← unmarshal_error; return (error_packet q)
unmarshal (plate_packet p) = do q ← unmarshal_plate; return (plate_packet q)
unmarshal (ticket_packet p) = do q ← unmarshal_ticket; return (ticket_packet q)
unmarshal (want_heartbeat p) = do q ← unmarshal_want_heartbeat; return (want_heartbeat q)
unmarshal heartbeat = do q ← unmarshal_heartbeat; return heartbeat
