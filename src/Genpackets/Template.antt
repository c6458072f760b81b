-- ===== src/Genpackets/Template.antt =====
-- The template of genpackets/genpackets.go: which statements it writes for the fields of a struct.
use protohackers_go.Prelude.{
  ◌-◌, Option, none, some, List, [], ◌∷◌, ◌++◌, ltb, if◌then◌else◌, ◌==◌, nat_eq, bytes_eq, Bytes,
  codes, length, take, contains, Outcome, done, panic,
}
use protohackers_go.Genpackets.Source.{Field, StructInfo, AstFile, parse_types, structs_of}
use mathlib.Core.List.{map}

-- The statements of a generated `Marshal`, each with the test of its error behind it.
pub data WriteStmt : Type 0 where
  -- err = buff.WriteByte(p.Opcode())
  write_opcode : WriteStmt
  -- err = buff.WriteByte(byte(len(p.F)))
  write_length : Bytes → WriteStmt
  -- n, err := buff.WriteString(p.F), and the comparison of n with len(p.F)
  write_string : Bytes → WriteStmt
  -- err = binary.Write(&buff, binary.BigEndian, p.F)
  write_binary : Bytes → WriteStmt
  -- panic("Provided unsupported type T for F")
  panic_on_write : Bytes → Bytes → WriteStmt

-- The statements of a generated `Unmarshal`.
pub data ReadStmt : Type 0 where
  -- { length, err = reader.ReadByte(r); buf, err = reader.ReadN(r, int(length)); p.F = string(buf) }
  read_string : Bytes → ReadStmt
  -- { length, err = reader.ReadByte(r); buf := make([]uint16, length); reader.ReadB(r, buf); p.F = buf }
  read_slice : Bytes → ReadStmt
  -- err = reader.ReadB(r, &p.F)
  read_binary : Bytes → ReadStmt
  panic_on_read : Bytes → Bytes → ReadStmt

abbrev pub number_types : List Bytes
number_types =
    codes "int64"
    ∷ codes "int32"
    ∷ codes "int16"
    ∷ codes "int8"
    ∷ codes "uint64"
    ∷ codes "uint32"
    ∷ codes "uint16"
    ∷ codes "uint8"
    ∷ []

abbrev pub slice_types : List Bytes
slice_types =
    codes "[]int64"
    ∷ codes "[]int32"
    ∷ codes "[]int16"
    ∷ codes "[]int8"
    ∷ codes "[]uint64"
    ∷ codes "[]uint32"
    ∷ codes "[]uint16"
    ∷ codes "[]uint8"
    ∷ []

-- The branches of the template: `eq .Type "string"`, and `or (eq ...) ...` for each list.
unfoldable pub write_field : Field → List WriteStmt
unfolding contains
write_field f =
    let text = write_length f.name ∷ write_string f.name ∷ [] in
    let slice = write_length f.name ∷ write_binary f.name ∷ [] in
    if f.type_ == codes "string"
    then text
    else (if contains slice_types f.type_
        then slice
        else (if contains number_types f.type_
            then write_binary f.name ∷ []
            else panic_on_write f.type_ f.name ∷ []))

unfoldable pub read_field : Field → ReadStmt
unfolding contains
read_field f =
    if f.type_ == codes "string"
    then read_string f.name
    else (if contains slice_types f.type_
        then read_slice f.name
        else (if contains number_types f.type_
            then read_binary f.name
            else panic_on_read f.type_ f.name))

-- `{{range .Fields}}`.
unfoldable pub write_fields : List Field → List WriteStmt
unfolding write_field
write_fields [] = []
write_fields (f ∷ fs) = write_field f ++ write_fields fs

unfoldable pub marshal_of : StructInfo → List WriteStmt
unfolding write_fields
marshal_of s = write_opcode ∷ write_fields s.fields

unfoldable pub unmarshal_of : StructInfo → List ReadStmt
unfolding read_field
unmarshal_of s = map read_field s.fields

-- The two methods of a struct.
pub record Methods : Type 0 where
  pub receiver : Bytes
  pub marshal : List WriteStmt
  pub unmarshal : List ReadStmt

unfoldable pub methods_of : StructInfo → Methods
unfolding marshal_of unmarshal_of
methods_of s = record { receiver = s.name; marshal = marshal_of s; unmarshal = unmarshal_of s }

-- A run of the program: no `-file`, a file that does not parse, or the file written.
pub data Generated : Type 0 where
  usage : Generated
  fatal : Generated
  written : Bytes → Bytes → List Methods → Generated

-- `(*fileFlag)[0:len(*fileFlag)-3]` panics if the name has fewer than three bytes.
abbrev pub out_name : Bytes → Outcome Bytes
out_name file =
    if ltb (length file) 3 then panic else done (take (length file - 3) file ++ codes "_gen.go")

abbrev pub write_out : Bytes → List Bytes → AstFile → Outcome Generated
write_out file_flag types file = elim (out_name file_flag) [
  | done out ↦ done (written out file.package_name (map methods_of (structs_of types file.decls)))
  | panic ↦ panic
]

-- `main`. `parse_file` is `parser.ParseFile`, with `none` for its error.
unfoldable pub generate : (Bytes → Option AstFile) → Bytes → Bytes → Outcome Generated
unfolding methods_of structs_of parse_types
generate parse_file file_flag types_flag =
    let types = parse_types types_flag in
    let run : Outcome Generated = elim (parse_file file_flag) [
      | none ↦ done fatal
      | some file ↦ write_out file_flag types file
    ] in
    if file_flag == [] then done usage else run
