-- ===== src/Traffic/Client/Tests.antt =====
-- `HandleClient` of traffic/traffic.go on the bytes of two cameras.
use protohackers_go.Prelude.{true, false, ◌≡◌, refl, some, List, [], ◌∷◌, ◌++◌, arith, Bytes}
use protohackers_go.Reader.Conn.{Stream, push, be16, be32}
use protohackers_go.Traffic.Packets.{Packet, camera, plate_packet, opcode}
use protohackers_go.Traffic.Codec.Marshal.{marshal, marshal_string}
use protohackers_go.Traffic.Server.Types.{connected, disconnected, received}
use protohackers_go.Traffic.Client.{Event, to_server, handle_client}
use protohackers_go.Traffic.Client.Fuel.{handle_client_ends}
use protohackers_go.Traffic.Client.Delivery.{AreBytes, handle_client_delivers}
use mathlib.Core.List.{map}

abbrev gate : Packet
gate = camera (record { road = 66; mile = 100; limit = 60 })

abbrev gate_bytes : Bytes
gate_bytes = 0x80 ∷ 0 ∷ 66 ∷ 0 ∷ 100 ∷ 0 ∷ 60 ∷ []

abbrev car : Packet
car = plate_packet (record { plate = 85 ∷ 78 ∷ []; timestamp = 1000 })

abbrev car_bytes : Bytes
car_bytes = 0x20 ∷ 2 ∷ 85 ∷ 78 ∷ 0 ∷ 0 ∷ 3 ∷ 0xe8 ∷ []

gate-AreBytes : AreBytes (gate ∷ car ∷ []) (gate_bytes ++ car_bytes)
unfolding marshal opcode be16 be32 marshal_string
gate-AreBytes = (gate_bytes, car_bytes, refl, refl, (car_bytes, [], refl, refl, refl))

handle_client_delivers_example :
    handle_client (λ s. true) (push (gate_bytes ++ car_bytes) [])
    ≡ some (
        to_server connected ∷ map (λ p. to_server (received p)) (gate ∷ car ∷ [])
        ++ to_server disconnected ∷ [])
handle_client_delivers_example =
    handle_client_delivers (λ s. true) (gate ∷ car ∷ []) (gate_bytes ++ car_bytes)
      ((tt, (omega arith, omega arith, omega arith)), ((tt, (omega arith, omega arith)), tt))
      gate-AreBytes

-- An opcode of the server's, and then the end of the connection.
abbrev strange : Stream
strange = (0x41 ∷ []) ∷ []

handle_client_ends_example :
    (es : List Event) × (handle_client (λ s. false) strange
      ≡ some (to_server connected ∷ es ++ to_server disconnected ∷ []))
handle_client_ends_example = handle_client_ends (λ s. false) strange
