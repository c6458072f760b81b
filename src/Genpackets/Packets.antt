-- ===== src/Genpackets/Packets.antt =====
-- genpackets/genpackets.go run on traffic/packets.go, as its `go:generate` line asks: what it writes
-- does what the methods in traffic/packets_gen.go do.
use Prim.Native.String.{String}
use protohackers_go.Prelude.{
  trim_left, ℕ, ◌/◌, ◌^◌, ◌%◌, ◌≡◌, refl, ◌∙◌, sym, Option, none, some, List, [], ◌∷◌, arith, ◌==◌,
  nat_eq, bytes_eq, bytes_beq, ==_refl, Bytes, codes, length, contains, done, if◌then◌else◌,
}
use protohackers_go.Reader.Conn.{Stream, Result, ok, err, be16, be32}
use protohackers_go.Traffic.Packets.{
  Packet, camera, dispatcher, error_packet, plate_packet, ticket_packet, want_heartbeat, heartbeat,
  opcode,
}
use protohackers_go.Traffic.Codec.Marshal.{marshal, marshal_string}
use protohackers_go.Traffic.Codec.Unmarshal.{
  unmarshal, unmarshal_heartbeat, unmarshal_camera, unmarshal_dispatcher, unmarshal_error,
  unmarshal_plate, unmarshal_ticket, unmarshal_want_heartbeat,
}
use protohackers_go.Traffic.Codec.RoundTrip.{blank}
use protohackers_go.Genpackets.Source.{
  ident, slice, FieldDecl, struct_spec, type_spec, other_spec, Decl, gen_decl, other_decl, AstFile,
  structs_of,
}
use protohackers_go.Genpackets.Template.{Methods, methods_of, written, generate}
use protohackers_go.Genpackets.Run.{
  uint16, uint32, text, number, numbers, Values, get_field, set_field, Ended, finished, failed,
  be_bytes, run_writes, exec_write, run_marshal, run_unmarshal,
}
use protohackers_go.Genpackets.Fields.{be_all-be16s}
use protohackers_go.Genpackets.RoundTrip.{struct_of}
use protohackers_go.Genpackets.Steps.{
  ended_as, ended_as-next, u16_step, u32_step, string_step, slice_step, run_end,
}
use mathlib.Core.List.{map}

abbrev one : String → String → FieldDecl
one name type_ = record { names = codes name ∷ []; type_ = ident (codes type_) }

abbrev struct_decl : String → List FieldDecl → Decl
struct_decl name fields = gen_decl (struct_spec (codes name) fields ∷ [])

-- The file traffic/packets.go as `parser.ParseFile` returns it: the import, the interface, and each
-- struct with the declaration of its method behind it.
abbrev pub packets_go : AstFile
packets_go = record {
  package_name = codes "traffic";
  decls =
      gen_decl (other_spec ∷ [])
      ∷ gen_decl (type_spec (codes "Packet") ∷ [])
      ∷ struct_decl "IAmCameraPacket"
          (one "Road" "uint16" ∷ one "Mile" "uint16" ∷ one "Limit" "uint16" ∷ [])
      ∷ other_decl
      ∷ struct_decl "IAmDispatcherPacket"
          ((record { names = codes "Roads" ∷ []; type_ = slice (ident (codes "uint16")) }) ∷ [])
      ∷ other_decl
      ∷ struct_decl "ErrorPacket" (one "Message" "string" ∷ [])
      ∷ other_decl
      ∷ struct_decl "PlatePacket" (one "Plate" "string" ∷ one "Timestamp" "uint32" ∷ [])
      ∷ other_decl
      ∷ struct_decl "TicketPacket" (
          one "Plate" "string"
          ∷ one "Road" "uint16"
          ∷ one "Mile1" "uint16"
          ∷ one "Timestamp1" "uint32"
          ∷ one "Mile2" "uint16"
          ∷ one "Timestamp2" "uint32"
          ∷ one "Speed" "uint16"
          ∷ [])
      ∷ other_decl
      ∷ struct_decl "WantHeartbeatPacket" (one "Interval" "uint32" ∷ [])
      ∷ other_decl
      ∷ struct_decl "HeartbeatPacket" []
      ∷ other_decl
      ∷ [];
}

abbrev pub struct_name : Packet → Bytes
struct_name (camera p) = codes "IAmCameraPacket"
struct_name (dispatcher p) = codes "IAmDispatcherPacket"
struct_name (error_packet p) = codes "ErrorPacket"
struct_name (plate_packet p) = codes "PlatePacket"
struct_name (ticket_packet p) = codes "TicketPacket"
struct_name (want_heartbeat p) = codes "WantHeartbeatPacket"
struct_name heartbeat = codes "HeartbeatPacket"

-- The fields of a packet by their names in the source.
abbrev pub values : Packet → Values
values (camera p) =
    (codes "Road", number uint16 p.road)
    ∷ (codes "Mile", number uint16 p.mile)
    ∷ (codes "Limit", number uint16 p.limit)
    ∷ []
values (dispatcher p) = (codes "Roads", numbers uint16 p.roads) ∷ []
values (error_packet p) = (codes "Message", text p.message) ∷ []
values (plate_packet p) =
    (codes "Plate", text p.plate) ∷ (codes "Timestamp", number uint32 p.timestamp) ∷ []
values (ticket_packet p) =
    (codes "Plate", text p.plate)
    ∷ (codes "Road", number uint16 p.road)
    ∷ (codes "Mile1", number uint16 p.mile1)
    ∷ (codes "Timestamp1", number uint32 p.timestamp1)
    ∷ (codes "Mile2", number uint16 p.mile2)
    ∷ (codes "Timestamp2", number uint32 p.timestamp2)
    ∷ (codes "Speed", number uint16 p.speed)
    ∷ []
values (want_heartbeat p) = (codes "Interval", number uint32 p.interval) ∷ []
values heartbeat = []

-- The methods that were written for a struct.
abbrev pub find_methods : Bytes → List Methods → Option Methods
find_methods name [] = none
find_methods name (m ∷ ms) =
    let rest = find_methods name ms in if m.receiver == name then some m else rest

abbrev pub all_methods : List Methods
all_methods = map methods_of (structs_of [] packets_go.decls)

abbrev pub methods_for : Packet → Methods
methods_for p = methods_of (struct_of (struct_name p) (values p))

found : (p : Packet) → find_methods (struct_name p) all_methods ≡ some (methods_for p)
unfolding methods_of structs_of bytes_beq
found (camera p) = refl
found (dispatcher p) = refl
found (error_packet p) = refl
found (plate_packet p) = refl
found (ticket_packet p) = refl
found (want_heartbeat p) = refl
found heartbeat = refl

be_bytes-be32 : (v : ℕ) → be_bytes 4 v ≡ be32 v
unfolding be_bytes be32
be_bytes-be32 v =
    let first : v / 256 / 256 / 256 % 256 ≡ v / 2 ^ 24 % 256 = omega arith in
    let second : v / 256 / 256 % 256 ≡ v / 2 ^ 16 % 256 = omega arith in rw (first, second) refl

abbrev pub ended {ℓ} : {A : Type ℓ} → Result A → Ended A
ended (ok a) = finished a
ended (err e) = failed e

marshal-generated :
    (p : Packet) → run_marshal (opcode p) (methods_for p).marshal (values p) ≡ ended (marshal p)
unfolding run_marshal methods_of marshal marshal_string bytes_beq contains opcode get_field
    exec_write run_writes be_bytes be16
marshal-generated (camera p) = refl
marshal-generated (dispatcher p) = rw be_all-be16s refl
marshal-generated (error_packet p) = rw (==_refl (length p.message)) refl
marshal-generated (plate_packet p) = rw (==_refl (length p.plate)) (rw be_bytes-be32 refl)
marshal-generated (ticket_packet p) =
    rw (==_refl (length p.plate)) (rw (be_bytes-be32 p.timestamp1, be_bytes-be32 p.timestamp2) refl)
marshal-generated (want_heartbeat p) = rw be_bytes-be32 refl
marshal-generated heartbeat = refl

unmarshal-generated :
    (p : Packet) (s : Stream)
    → run_unmarshal (methods_for p).unmarshal (values (blank p)) s
      ≡ ended_as values (unmarshal (blank p) s)
unfolding methods_of bytes_beq contains unmarshal unmarshal_camera unmarshal_dispatcher
    unmarshal_error unmarshal_plate unmarshal_ticket unmarshal_want_heartbeat unmarshal_heartbeat
    get_field set_field
unmarshal-generated (camera p) s =
    u16_step _ _ _ _ 0 _ s refl (λ road s₁.
      u16_step _ _ _ _ 0 _ s₁ refl (λ mile s₂. u16_step _ _ _ _ 0 _ s₂ refl (λ limit. run_end _)))
    ∙ sym (ended_as-next values camera (unmarshal_camera s))
unmarshal-generated (dispatcher p) s =
    slice_step _ _ _ _ [] _ s refl (λ roads. run_end _)
    ∙ sym (ended_as-next values dispatcher (unmarshal_dispatcher s))
unmarshal-generated (error_packet p) s =
    string_step _ _ _ _ [] _ s refl (λ message. run_end _)
    ∙ sym (ended_as-next values error_packet (unmarshal_error s))
unmarshal-generated (plate_packet p) s =
    string_step _ _ _ _ [] _ s refl
      (λ plate s₁. u32_step _ _ _ _ 0 _ s₁ refl (λ timestamp. run_end _))
    ∙ sym (ended_as-next values plate_packet (unmarshal_plate s))
unmarshal-generated (ticket_packet p) s =
    string_step _ _ _ _ [] _ s refl (λ plate s₁. u16_step _ _ _ _ 0 _ s₁ refl (λ road s₂.
      u16_step _ _ _ _ 0 _ s₂ refl (λ mile1 s₃. u32_step _ _ _ _ 0 _ s₃ refl (λ timestamp1 s₄.
        u16_step _ _ _ _ 0 _ s₄ refl (λ mile2 s₅.
          u32_step _ _ _ _ 0 _ s₅ refl
            (λ timestamp2 s₆. u16_step _ _ _ _ 0 _ s₆ refl (λ speed. run_end _)))))))
    ∙ sym (ended_as-next values ticket_packet (unmarshal_ticket s))
unmarshal-generated (want_heartbeat p) s =
    u32_step _ _ _ _ 0 _ s refl (λ interval. run_end _)
    ∙ sym (ended_as-next values want_heartbeat (unmarshal_want_heartbeat s))
unmarshal-generated heartbeat s = run_end _ s

-- Run on traffic/packets.go without `-types`, the program writes packets_gen.go of the package traffic,
-- and for every packet the methods of its struct are there: the `Marshal` written ends on its fields
-- with the bytes or the error of the packet's `Marshal`, and the `Unmarshal` written, into a new struct
-- and from any connection, with the fields or the error of its `Unmarshal`, at the same place.
pub generate-packets_go :
    (parse_file : Bytes → Option AstFile)
    → parse_file (codes "packets.go") ≡ some packets_go
    → (p : Packet) (s : Stream)
    → (ms : List Methods) × (m : Methods) × (generate parse_file (codes "packets.go") []
        ≡ done (written (codes "packets_gen.go") (codes "traffic") ms))
      × (find_methods (struct_name p) ms ≡ some m)
      × (run_marshal (opcode p) m.marshal (values p) ≡ ended (marshal p))
      × (run_unmarshal m.unmarshal (values (blank p)) s ≡ ended_as values (unmarshal (blank p) s))
unfolding generate trim_left bytes_beq
generate-packets_go parse_file e p s =
    (all_methods, methods_for p, rw e refl, found p, marshal-generated p, unmarshal-generated p s)
