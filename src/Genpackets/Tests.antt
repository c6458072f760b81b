-- ===== src/Genpackets/Tests.antt =====
-- genpackets/genpackets.go on small files.
use protohackers_go.Prelude.{
  true, less, ◌≡◌, refl, false, some, List, [], ◌∷◌, ◌++◌, arith, nat_eq, bytes_eq, bytes_beq,
  Bytes, codes, contains, done,
}
use protohackers_go.Reader.Conn.{Stream, push}
use protohackers_go.Traffic.Packets.{Packet, plate_packet, opcode}
use protohackers_go.Traffic.Codec.Marshal.{marshal}
use protohackers_go.Traffic.Codec.Unmarshal.{unmarshal}
use protohackers_go.Traffic.Codec.RoundTrip.{blank}
use protohackers_go.Genpackets.Source.{StructInfo, struct_spec, Decl, gen_decl, structs_of}
use protohackers_go.Genpackets.Template.{Methods, written, generate, marshal_of, unmarshal_of}
use protohackers_go.Genpackets.Run.{
  int64, uint16, text, number, numbers, Values, finished, run_marshal, run_unmarshal,
}
use protohackers_go.Genpackets.Fields.{zeros}
use protohackers_go.Genpackets.RoundTrip.{struct_of, unmarshal-marshal_fields}
use protohackers_go.Genpackets.Steps.{ended_as}
use protohackers_go.Genpackets.Packets.{
  packets_go, struct_name, values, find_methods, ended, generate-packets_go,
}
use protohackers_go.Genpackets.Select.{keep, structs_of_sorted, structs_of_descending}
use protohackers_go.Genpackets.Checks.{check_file}

-- A struct with a field of each kind.
abbrev reading : Values
reading =
    (codes "Site", text (codes "dam"))
    ∷ (codes "Level", number int64 300)
    ∷ (codes "Gates", numbers uint16 (1 ∷ 500 ∷ []))
    ∷ []

abbrev reading_file : List StructInfo
reading_file = struct_of (codes "Reading") reading ∷ []

reading_compiles : check_file reading_file ≡ true
unfolding check_file bytes_beq contains
reading_compiles = refl

unmarshal-marshal_fields_example :
    (bs : Bytes) × (run_marshal 9 (marshal_of (struct_of (codes "Reading") reading)) reading
      ≡ finished (9 ∷ bs))
    × (run_unmarshal
          (unmarshal_of (struct_of (codes "Reading") reading))
          (zeros reading)
          (push (bs ++ 7 ∷ []) [])
        ≡ (finished reading, push (7 ∷ []) []))
unfolding bytes_beq contains
unmarshal-marshal_fields_example =
    unmarshal-marshal_fields reading_file 0 (codes "Reading") 9 reading (7 ∷ []) [] reading_compiles
      refl (refl, (refl, (refl, tt)))
      (omega arith, (omega arith, ((refl, omega arith, (omega arith, (omega arith, tt))), tt)))

abbrev car : Packet
car = plate_packet (record { plate = codes "UN1X"; timestamp = 1000 })

abbrev arriving : Stream
arriving = (4 ∷ codes "UN1X") ∷ (0 ∷ 0 ∷ 3 ∷ 0xe8 ∷ []) ∷ []

generate-packets_go_example :
    (ms : List Methods) × (m : Methods) × (generate
        (λ name. some packets_go)
        (codes "packets.go")
        []
      ≡ done (written (codes "packets_gen.go") (codes "traffic") ms))
    × (find_methods (struct_name car) ms ≡ some m)
    × (run_marshal (opcode car) m.marshal (values car) ≡ ended (marshal car))
    × (run_unmarshal m.unmarshal (values (blank car)) arriving
        ≡ ended_as values (unmarshal (blank car) arriving))
generate-packets_go_example = generate-packets_go (λ name. some packets_go) refl car arriving

abbrev two_structs : List Decl
two_structs =
    gen_decl (struct_spec (codes "B") [] ∷ struct_spec (codes "C") [] ∷ [])
    ∷ gen_decl (struct_spec (codes "A") [] ∷ [])
    ∷ []

structs_of_sorted_example :
    structs_of (codes "A" ∷ codes "C" ∷ []) two_structs
    ≡ keep (λ s. contains (codes "A" ∷ codes "C" ∷ []) s.name) (structs_of [] two_structs)
unfolding less
structs_of_sorted_example =
    structs_of_sorted (codes "A") (codes "C" ∷ []) two_structs ((refl, tt), (tt, tt))

structs_of_descending_example : structs_of (codes "C" ∷ codes "A" ∷ []) two_structs ≡ []
unfolding less
structs_of_descending_example = structs_of_descending (codes "A") (codes "C") two_structs refl

abbrev person : StructInfo
person = record {
  name = codes "Person";
  fields =
      (record { name = codes "First"; type_ = codes "string" })
      ∷ (record { name = codes "Last"; type_ = codes "string" })
      ∷ (record { name = codes "Age"; type_ = codes "uint8" })
      ∷ [];
}

-- Two strings declare `n` twice.
two_strings : check_file (person ∷ []) ≡ false
unfolding check_file bytes_beq contains
two_strings = refl
