-- ===== src/Traffic/Client.antt =====
-- `HandleClient` of traffic/traffic.go: the loop that reads packets from a connection.
pub mod Fuel
pub mod Delivery
mod Tests
use protohackers_go.Prelude.{
  codes, ℕ, zero, suc, ◌+◌, ◌-◌, ◌*◌, ◌/◌, ◌%◌, ◌^◌, ◌≤◌, ◌<◌, ◌≡◌, refl, sym, ap, ◌∙◌, ◌≢◌, ◌↔◌,
  ◌⊎◌, inl, inr, Bool, true, false, not, ◌&&◌, ◌||◌, Option, none, some, List, [], ◌∷◌, ◌++◌, arith,
  ltb, leb, if◌then◌else◌, Bool-cases, Option-cases, Eq, ◌==◌, nat_eq, bytes_eq, Bytes, bytes_beq,
  bytes_beq_iff, ==_refl, ==→eq, ==_sym_false, length, set, concat, get_elem?, take, drop,
  replicate, All, length-append, length-take, length-drop, length-replicate, take-append,
  drop-append, take-append-drop, take_all, drop_all, split_at, List-cases, index_of-some,
  length_pos, All-append, All-mono, All-zip, Any, erase_idx, erase_idx-All, length-erase_idx,
  delete_func, delete_func-All, contains, index_of, find_first, find_first-some, find_first-none,
  All-get_elem?, contains-append, index_of-none, index_of-lt, Distinct, Distinct-append,
  contains-erase_idx_ne, contains-erase_idx_le, erase_idx-Distinct, contains-erase_idx_self, update,
}
use protohackers_go.Reader.Conn.{R, Stream, Result, ok, err, write_failed, ◌>>=◌, return, bytes_in}
use protohackers_go.Reader.{read_byte}
use protohackers_go.Traffic.Packets.{
  Packet, ErrorPacket, camera, dispatcher, plate_packet, want_heartbeat,
}
use protohackers_go.Traffic.Codec.Marshal.{marshal_error}
use protohackers_go.Traffic.Codec.Unmarshal.{unmarshal}
use protohackers_go.Traffic.Server.Types.{Message, connected, disconnected, received, nothing}

-- A message for the channel of the server, or an answer to the client.
pub data Event : Type 0 where
  to_server : Message → Event
  to_client : Bytes → Event

-- The `switch` over the opcodes, in its order, and the new packet of each.
unfoldable pub new_packet : ℕ → Option Packet
new_packet op =
    if op == 0x20
    then some (plate_packet (record { plate = []; timestamp = 0 }))
    else if op == 0x80
    then some (camera (record { road = 0; mile = 0; limit = 0 }))
    else if op == 0x81
    then some (dispatcher (record { roads = [] }))
    else if op == 0x40
    then some (want_heartbeat (record { interval = 0 }))
    else none

abbrev lift {ℓ} : {A : Type ℓ} → Result A → R A
lift r s = (r, s)

abbrev pub invalid_opcode : ErrorPacket
invalid_opcode = record { message = codes "received invalid opcode" }

-- `Write` of the client, which may fail.
abbrev write : (Stream → Bool) → Bytes → R (List Event)
write writes data_out s = (if writes s then ok (to_client data_out ∷ []) else err write_failed, s)

-- A case of the switch: `Unmarshal`, or the answer to an opcode that is none of a client's. `writes`
-- says whether a `Write` succeeds, which may differ each time, as there is less left of the connection.
unfoldable pub handle_opcode : (Stream → Bool) → Option Packet → R (List Event)
handle_opcode writes (some p) = do q ← unmarshal p; return (to_server (received q) ∷ [])
handle_opcode writes none = do
  data_out ← lift (marshal_error invalid_opcode)
  answer ← write writes data_out
  return (answer ++ to_server nothing ∷ [])

-- One round of the loop.
unfoldable pub round : (Stream → Bool) → R (List Event)
unfolding handle_opcode
round writes = do op ← read_byte; handle_opcode writes (new_packet op)

abbrev pub and_then : List Event → Option (List Event) → Option (List Event)
and_then es none = none
and_then es (some fs) = some (es ++ fs)

-- What comes of the loop: a round's events and the rest, or the `return` at an error.
abbrev pub continue_with : Result (List Event) → Option (List Event) → Option (List Event)
continue_with (ok es) rest = and_then es rest
continue_with (err e) rest = some []

-- The loop, which ends at the first error. `none` is the end of the fuel.
unfoldable pub rounds : (Stream → Bool) → ℕ → Stream → Option (List Event)
unfolding round
rounds writes zero s = none
rounds writes (suc n) s = let (r, t) = round writes s in continue_with r (rounds writes n t)

-- The messages before the loop and after it, which the `defer` sends.
abbrev pub between : Option (List Event) → Option (List Event)
between none = none
between (some es) = some (to_server connected ∷ es ++ to_server disconnected ∷ [])

unfoldable pub handle_client : (Stream → Bool) → Stream → Option (List Event)
unfolding rounds
handle_client writes s = between (rounds writes (bytes_in s + 1) s)
