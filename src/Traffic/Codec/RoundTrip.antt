-- ===== src/Traffic/Codec/RoundTrip.antt =====
-- What Marshal writes, Unmarshal reads.
use protohackers_go.Prelude.{
  ℕ, ◌%◌, ◌<◌, ◌≡◌, refl, ap, ◌∙◌, true, [], ◌∷◌, ◌++◌, arith, ◌==◌, nat_eq, bytes_eq, Bytes,
  length,
}
use protohackers_go.Reader.Conn.{R, Stream, push, ok, ◌>>=◌, return, be16, be32, be16s}
use protohackers_go.Reader.{read_byte}
use protohackers_go.Reader.Laws.{
  Reads, ReadsNumbers, Reads-return, Reads->>=, Reads-last, AnySegments, any_segments,
}
use protohackers_go.Reader.Segments.{OneSegment, one_segment, read_n-Reads}
use protohackers_go.Traffic.Packets.{
  IAmCamera, IAmDispatcher, ErrorPacket, Plate, Ticket, WantHeartbeat, Packet, camera, dispatcher,
  error_packet, plate_packet, ticket_packet, want_heartbeat, heartbeat, opcode, Fits,
}
use protohackers_go.Traffic.Codec.Marshal.{marshal, marshal_string}
use protohackers_go.Traffic.Codec.Unmarshal.{
  unmarshal, unmarshal_string, unmarshal_camera, unmarshal_dispatcher, unmarshal_error,
  unmarshal_plate, unmarshal_ticket, unmarshal_want_heartbeat, unmarshal_heartbeat,
}
use mathlib.Core.List.{append_assoc}

-- The bytes of a packet behind its opcode.
body : Packet → Bytes
body (camera p) = be16 p.road ++ (be16 p.mile ++ be16 p.limit)
body (dispatcher p) = length p.roads ∷ [] ++ be16s p.roads
body (error_packet p) = length p.message ∷ [] ++ p.message
body (plate_packet p) = (length p.plate ∷ [] ++ p.plate) ++ be32 p.timestamp
body (ticket_packet p) =
    (length p.plate ∷ [] ++ p.plate)
    ++ (be16 p.road
        ++ (be16 p.mile1
            ++ (be32 p.timestamp1 ++ (be16 p.mile2 ++ (be32 p.timestamp2 ++ be16 p.speed)))))
body (want_heartbeat p) = be32 p.interval
body heartbeat = []

byte_of_length : (n : ℕ) → n < 256 → n % 256 ≡ n
byte_of_length n h = omega arith

nat_beq_self : (n : ℕ) → (n == n) ≡ true
nat_beq_self n = ground arith

marshal_string_lem :
    (s b : Bytes) → length s < 256 → marshal_string s b ≡ ok (b ++ (length s ∷ [] ++ s))
unfolding marshal_string
marshal_string_lem s b h =
    ground (arith, append_assoc b (length s ∷ []) s, byte_of_length (length s) h)

marshal-body : (p : Packet) → Fits p → marshal p ≡ ok (opcode p ∷ body p)
unfolding marshal body opcode
marshal-body (camera p) f = rw append_assoc refl
marshal-body (dispatcher p) f = rw (byte_of_length (length p.roads) f.0)
marshal-body (error_packet p) f = marshal_string_lem p.message _ f
marshal-body (plate_packet p) f = rw (marshal_string_lem p.plate (0x20 ∷ []) f.0)
marshal-body (ticket_packet p) f =
    rw (marshal_string_lem p.plate (0x21 ∷ []) f.0) (simp append_assoc)
marshal-body (want_heartbeat p) f = refl
marshal-body heartbeat f = refl

-- The packets with no string.
module _ {At : Bytes → Stream → Type 0} (numbers : ReadsNumbers At) where
  unmarshal_camera-Reads :
      (p : IAmCamera) → Fits (camera p) → Reads At unmarshal_camera (body (camera p)) p
  unfolding unmarshal_camera body
  unmarshal_camera-Reads p f =
      Reads->>= _ (numbers.u16 p.road f.0)
        (Reads->>= _ (numbers.u16 p.mile f.1) (Reads-last _ (numbers.u16 p.limit f.2)))

  unmarshal_dispatcher-Reads :
      (p : IAmDispatcher)
      → Fits (dispatcher p)
      → Reads At unmarshal_dispatcher (body (dispatcher p)) p
  unfolding unmarshal_dispatcher body
  unmarshal_dispatcher-Reads p f =
      Reads->>= _ (numbers.byte (length p.roads)) (Reads-last _ (numbers.u16s p.roads f.1))

  unmarshal_want_heartbeat-Reads :
      (p : WantHeartbeat)
      → Fits (want_heartbeat p)
      → Reads At unmarshal_want_heartbeat (body (want_heartbeat p)) p
  unfolding unmarshal_want_heartbeat body
  unmarshal_want_heartbeat-Reads p f = Reads-last _ (numbers.u32 p.interval f)

-- The packets with a string, whose bytes `ReadN` finds in one segment.
module _ {cs : Stream} where
  pub unmarshal_string-Reads :
      (s : Bytes) → Reads (OneSegment cs) unmarshal_string (length s ∷ [] ++ s) s
  unfolding unmarshal_string
  unmarshal_string-Reads s =
      Reads->>= _ (one_segment.byte (length s)) (read_n-Reads (length s) s refl)

  unmarshal_error-Reads :
      (p : ErrorPacket) → Reads (OneSegment cs) unmarshal_error (body (error_packet p)) p
  unfolding unmarshal_error body
  unmarshal_error-Reads p = Reads-last _ (unmarshal_string-Reads p.message)

  unmarshal_plate-Reads :
      (p : Plate)
      → Fits (plate_packet p)
      → Reads (OneSegment cs) unmarshal_plate (body (plate_packet p)) p
  unfolding unmarshal_plate body
  unmarshal_plate-Reads p f =
      Reads->>= _ (unmarshal_string-Reads p.plate) (Reads-last _ (one_segment.u32 p.timestamp f.1))

  unmarshal_ticket-Reads :
      (p : Ticket)
      → Fits (ticket_packet p)
      → Reads (OneSegment cs) unmarshal_ticket (body (ticket_packet p)) p
  unfolding unmarshal_ticket body
  unmarshal_ticket-Reads p f = Reads->>= _ (unmarshal_string-Reads p.plate) (
      Reads->>= _ (one_segment.u16 p.road f.1) (
        Reads->>= _ (one_segment.u16 p.mile1 f.2) (
          Reads->>= _ (one_segment.u32 p.timestamp1 f.3) (
            Reads->>= _ (one_segment.u16 p.mile2 f.4) (
              Reads->>= _ (one_segment.u32 p.timestamp2 f.5)
                (Reads-last _ (one_segment.u16 p.speed f.6)))))))

-- `new(T)` for the type of the packet `p`.
abbrev pub blank : Packet → Packet
blank (camera p) = camera (record { road = 0; mile = 0; limit = 0 })
blank (dispatcher p) = dispatcher (record { roads = [] })
blank (error_packet p) = error_packet (record { message = [] })
blank (plate_packet p) = plate_packet (record { plate = []; timestamp = 0 })
blank (ticket_packet p) = ticket_packet (record {
  plate = [];
  road = 0;
  mile1 = 0;
  timestamp1 = 0;
  mile2 = 0;
  timestamp2 = 0;
  speed = 0;
})
blank (want_heartbeat p) = want_heartbeat (record { interval = 0 })
blank heartbeat = heartbeat

module _ {cs : Stream} where
  unmarshal-Reads : (p : Packet) → Fits p → Reads (OneSegment cs) (unmarshal (blank p)) (body p) p
  unfolding unmarshal unmarshal_heartbeat body
  unmarshal-Reads (camera p) f = Reads-last _ (unmarshal_camera-Reads one_segment p f)
  unmarshal-Reads (dispatcher p) f = Reads-last _ (unmarshal_dispatcher-Reads one_segment p f)
  unmarshal-Reads (error_packet p) f = Reads-last _ (unmarshal_error-Reads p)
  unmarshal-Reads (plate_packet p) f = Reads-last _ (unmarshal_plate-Reads p f)
  unmarshal-Reads (ticket_packet p) f = Reads-last _ (unmarshal_ticket-Reads p f)
  unmarshal-Reads (want_heartbeat p) f =
      Reads-last _ (unmarshal_want_heartbeat-Reads one_segment p f)
  unmarshal-Reads heartbeat f = Reads-return heartbeat

-- Whether `Unmarshal` reads the packet by `io.ReadFull` alone.
abbrev pub IsBinary : Packet → Type 0
IsBinary (camera p) = Unit
IsBinary (dispatcher p) = Unit
IsBinary (want_heartbeat p) = Unit
IsBinary p = ⊥

unmarshal-Reads_binary :
    (p : Packet) → IsBinary p → Fits p → Reads AnySegments (unmarshal (blank p)) (body p) p
unfolding unmarshal
unmarshal-Reads_binary (camera p) b f = Reads-last _ (unmarshal_camera-Reads any_segments p f)
unmarshal-Reads_binary (dispatcher p) b f =
    Reads-last _ (unmarshal_dispatcher-Reads any_segments p f)
unmarshal-Reads_binary (want_heartbeat p) b f =
    Reads-last _ (unmarshal_want_heartbeat-Reads any_segments p f)
unmarshal-Reads_binary (error_packet p) b f = absurd b
unmarshal-Reads_binary (plate_packet p) b f = absurd b
unmarshal-Reads_binary (ticket_packet p) b f = absurd b
unmarshal-Reads_binary heartbeat b f = absurd b

-- The opcode, and the packet that `Unmarshal` makes of a new packet of the type of `p`.
abbrev pub receive : Packet → R (ℕ × Packet)
receive p = read_byte >>= λ op. unmarshal (blank p) >>= λ q. return (op, q)

-- Every packet whose fields are in range, and whose string or list has fewer than 256 entries, is
-- marshalled without an error; where its bytes stand in one segment, the opcode and then `Unmarshal`
-- read exactly these bytes and give the packet back, whatever follows.
pub unmarshal-marshal :
    (p : Packet)
    → Fits p
    → (rest : Bytes) (cs : Stream)
    → (bs : Bytes) × (marshal p ≡ ok bs)
      × (receive p (push (bs ++ rest) cs) ≡ (ok (opcode p, p), push rest cs))
unmarshal-marshal p f rest cs =
    let whole : Reads (OneSegment cs) (receive p) (opcode p ∷ body p) (opcode p, p) =
      Reads->>= _ (one_segment.byte (opcode p)) (Reads-last _ (unmarshal-Reads p f)) in
    let (t, e, h) = whole.run (push ((opcode p ∷ body p) ++ rest) cs) rest refl in
    (opcode p ∷ body p, marshal-body p f, e ∙ ap (λ s. (ok (opcode p, p), s)) h)

-- A camera's, dispatcher's or heartbeat request's packet in range is read back from any
-- segmentation of its bytes, and what is left is the bytes that followed.
pub unmarshal-marshal_segments :
    (p : Packet)
    → IsBinary p
    → Fits p
    → (s : Stream) (bs rest : Bytes) → marshal p ≡ ok bs
    → AnySegments (bs ++ rest) s
    → (t : Stream) × (receive p s ≡ (ok (opcode p, p), t)) × AnySegments rest t
unmarshal-marshal_segments p b f s bs rest m h =
    let whole : Reads AnySegments (receive p) (opcode p ∷ body p) (opcode p, p) =
      Reads->>= _ (any_segments.byte (opcode p)) (Reads-last _ (unmarshal-Reads_binary p b f)) in
    let same : bs ≡ opcode p ∷ body p = cc (marshal-body p f) in whole.run s rest (rw same at h)
