-- ===== src/Traffic/Codec/Marshal.antt =====
-- The Marshal methods of traffic/packets_gen.go. A `bytes.Buffer` is the list of the bytes written.
use protohackers_go.Prelude.{
  ℕ, ◌%◌, List, [], ◌∷◌, ◌++◌, if◌then◌else◌, ◌==◌, nat_eq, bytes_eq, Bytes, length,
}
use protohackers_go.Reader.Conn.{Result, ok, err, unexpected_eof, be16, be32, be16s}
use protohackers_go.Traffic.Packets.{
  IAmCamera, IAmDispatcher, ErrorPacket, Plate, Ticket, WantHeartbeat, Packet, camera, dispatcher,
  error_packet, plate_packet, ticket_packet, want_heartbeat, heartbeat, opcode,
}

infixl 5 ◌>>=◌
abbrev ◌>>=◌ {ℓ κ} : {A : Type ℓ} {B : Type κ} → Result A → (A → Result B) → Result B
ok a >>= f = f a
err e >>= f = err e

-- Writes to a buffer do not fail.
abbrev write_byte : ℕ → Bytes → Result Bytes
write_byte b buff = ok (buff ++ b ∷ [])

abbrev write_u16 : ℕ → Bytes → Result Bytes
write_u16 v buff = ok (buff ++ be16 v)

abbrev write_u32 : ℕ → Bytes → Result Bytes
write_u32 v buff = ok (buff ++ be32 v)

abbrev write_u16s : List ℕ → Bytes → Result Bytes
write_u16s vs buff = ok (buff ++ be16s vs)

-- `WriteString` also returns the number of bytes written, which the caller compares.
abbrev write_string : Bytes → Bytes → Result (ℕ × Bytes)
write_string s buff = ok (length s, buff ++ s)

-- `byte(len(s))`, the string, and the check of the count.
unfoldable pub marshal_string : Bytes → Bytes → Result Bytes
marshal_string s b₀ = do
  b₁ ← write_byte (length s % 256) b₀
  written ← write_string s b₁
  if written.0 == length s then ok written.1 else err unexpected_eof

unfoldable pub marshal_camera : IAmCamera → Result Bytes
unfolding opcode
marshal_camera p = do
  b₀ ← write_byte (opcode (camera p)) []
  b₁ ← write_u16 p.road b₀
  b₂ ← write_u16 p.mile b₁
  write_u16 p.limit b₂

unfoldable pub marshal_dispatcher : IAmDispatcher → Result Bytes
unfolding opcode
marshal_dispatcher p = do
  b₀ ← write_byte (opcode (dispatcher p)) []
  b₁ ← write_byte (length p.roads % 256) b₀
  write_u16s p.roads b₁

unfoldable pub marshal_error : ErrorPacket → Result Bytes
unfolding opcode
marshal_error p = do b₀ ← write_byte (opcode (error_packet p)) []; marshal_string p.message b₀

unfoldable pub marshal_plate : Plate → Result Bytes
unfolding opcode
marshal_plate p = do
  b₀ ← write_byte (opcode (plate_packet p)) []
  b₁ ← marshal_string p.plate b₀
  write_u32 p.timestamp b₁

unfoldable pub marshal_ticket : Ticket → Result Bytes
unfolding opcode
marshal_ticket p = do
  b₀ ← write_byte (opcode (ticket_packet p)) []
  b₁ ← marshal_string p.plate b₀
  b₂ ← write_u16 p.road b₁
  b₃ ← write_u16 p.mile1 b₂
  b₄ ← write_u32 p.timestamp1 b₃
  b₅ ← write_u16 p.mile2 b₄
  b₆ ← write_u32 p.timestamp2 b₅
  write_u16 p.speed b₆

unfoldable pub marshal_want_heartbeat : WantHeartbeat → Result Bytes
unfolding opcode
marshal_want_heartbeat p = do
  b₀ ← write_byte (opcode (want_heartbeat p)) []
  write_u32 p.interval b₀

unfoldable pub marshal_heartbeat : Result Bytes
unfolding opcode
marshal_heartbeat = write_byte (opcode heartbeat) []

-- The interface method.
unfoldable pub marshal : Packet → Result Bytes
unfolding marshal_camera marshal_dispatcher marshal_error marshal_plate marshal_ticket
    marshal_want_heartbeat marshal_heartbeat
marshal (camera p) = marshal_camera p
marshal (dispatcher p) = marshal_dispatcher p
marshal (error_packet p) = marshal_error p
marshal (plate_packet p) = marshal_plate p
marshal (ticket_packet p) = marshal_ticket p
marshal (want_heartbeat p) = marshal_want_heartbeat p
marshal heartbeat = marshal_heartbeat
