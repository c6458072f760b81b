-- ===== src/Traffic/Codec/Tests.antt =====
-- The codec of traffic/packets_gen.go at concrete packets.
use protohackers_go.Prelude.{◌≡◌, refl, [], ◌∷◌, ◌++◌, arith, nat_eq, bytes_eq, Bytes}
use protohackers_go.Reader.Conn.{Stream, push, ok, err, unexpected_eof, be16, be32}
use protohackers_go.Reader.Laws.{AnySegments}
use protohackers_go.Traffic.Packets.{Packet, camera, plate_packet, opcode}
use protohackers_go.Traffic.Codec.Marshal.{marshal, marshal_string}
use protohackers_go.Traffic.Codec.Unmarshal.{unmarshal_string, unmarshal_plate}
use protohackers_go.Traffic.Codec.RoundTrip.{receive, unmarshal-marshal, unmarshal-marshal_segments}
use protohackers_go.Traffic.Codec.Fragments.{plate_cut, long_string}

abbrev un1x : Packet
un1x = plate_packet (record { plate = b'U' ∷ b'N' ∷ []; timestamp = 1000 })

un1x_bytes : marshal un1x ≡ ok (0x20 ∷ 2 ∷ b'U' ∷ b'N' ∷ 0 ∷ 0 ∷ 3 ∷ 0xe8 ∷ [])
unfolding marshal be32 opcode marshal_string
un1x_bytes = refl

unmarshal-marshal_example :
    (bs : Bytes) × (marshal un1x ≡ ok bs)
    × (receive un1x (push (bs ++ 9 ∷ []) []) ≡ (ok (opcode un1x, un1x), (9 ∷ []) ∷ []))
unmarshal-marshal_example = unmarshal-marshal un1x (omega arith) (9 ∷ []) []

abbrev cam : Packet
cam = camera (record { road = 66; mile = 100; limit = 60 })

abbrev cam_bytes : Bytes
cam_bytes = 0x80 ∷ 0 ∷ 66 ∷ 0 ∷ 100 ∷ 0 ∷ 60 ∷ []

cam_marshalled : marshal cam ≡ ok cam_bytes
unfolding marshal be16
cam_marshalled = refl

cam_segments : Stream
cam_segments = (0x80 ∷ 0 ∷ []) ∷ (66 ∷ 0 ∷ 100 ∷ 0 ∷ []) ∷ (60 ∷ 7 ∷ []) ∷ []

cam_present : AnySegments (cam_bytes ++ 7 ∷ []) cam_segments
unfolding cam_segments
cam_present = (((λ e. cc), ((λ e. cc), ((λ e. cc), tt))), refl)

unmarshal-marshal_segments_example :
    (t : Stream) × (receive cam cam_segments ≡ (ok (opcode cam, cam), t)) × AnySegments (7 ∷ []) t
unmarshal-marshal_segments_example =
    unmarshal-marshal_segments cam tt (omega arith) cam_segments cam_bytes (7 ∷ []) cam_marshalled
      cam_present

plate_cut_example :
    unmarshal_plate ((2 ∷ b'U' ∷ []) ∷ (b'N' ∷ be32 1000) ∷ [])
    ≡ (err unexpected_eof, (b'N' ∷ be32 1000) ∷ [])
plate_cut_example = plate_cut (b'U' ∷ []) (b'N' ∷ []) 1000 [] (λ e. cc) (λ e. cc)

long_string_example :
    (marshal_string (b'U' ∷ []) [] ≡ ok (1 ∷ b'U' ∷ []))
    × (unmarshal_string (push (1 ∷ b'U' ∷ []) []) ≡ (ok (b'U' ∷ []), []))
long_string_example = long_string (b'U' ∷ []) [] [] []
