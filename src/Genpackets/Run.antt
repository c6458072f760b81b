-- ===== src/Genpackets/Run.antt =====
-- What the statements that genpackets/genpackets.go writes do when they run: on a buffer and on a
-- connection, and on the fields of the struct `p`.
use protohackers_go.Prelude.{
  false, ℕ, zero, suc, ◌/◌, ◌%◌, Option, none, some, List, [], ◌∷◌, ◌++◌, if◌then◌else◌, ◌==◌,
  nat_eq, bytes_eq, Bytes, codes, length,
}
use protohackers_go.Reader.Conn.{
  Stream, R, Result, Error, ok, err, unexpected_eof, ◌>>=◌, return, read_full, from_be,
}
use protohackers_go.Reader.{read_byte, read_u16s}
use protohackers_go.Traffic.Codec.Unmarshal.{unmarshal_string}
use protohackers_go.Genpackets.Source.{Field}
use protohackers_go.Genpackets.Checks.{check_writes}
use protohackers_go.Genpackets.Template.{
  WriteStmt, write_opcode, write_length, write_string, write_binary, panic_on_write, ReadStmt,
  read_string, read_slice, read_binary, panic_on_read,
}

pub data NumberType : Type 0 where
  int64 int32 int16 int8 uint64 uint32 uint16 uint8 : NumberType

abbrev pub name_of : NumberType → Bytes
name_of int64 = codes "int64"
name_of int32 = codes "int32"
name_of int16 = codes "int16"
name_of int8 = codes "int8"
name_of uint64 = codes "uint64"
name_of uint32 = codes "uint32"
name_of uint16 = codes "uint16"
name_of uint8 = codes "uint8"

-- The bytes of a number.
abbrev pub width : NumberType → ℕ
width int64 = 8
width int32 = 4
width int16 = 2
width int8 = 1
width uint64 = 8
width uint32 = 4
width uint16 = 2
width uint8 = 1

-- The value of a field. A number, signed or not, is the number that its bits are.
pub data Value : Type 0 where
  text : Bytes → Value
  number : NumberType → ℕ → Value
  numbers : NumberType → List ℕ → Value

abbrev pub type_of : Value → Bytes
type_of (text s) = codes "string"
type_of (number t v) = name_of t
type_of (numbers t vs) = codes "[]" ++ name_of t

-- A struct: its fields in their order.
abbrev pub Values : Type 0
Values = List (Bytes × Value)

-- The declaration of the struct.
abbrev pub declared : Values → List Field
declared [] = []
declared ((n, v) ∷ p) = (record { name = n; type_ = type_of v }) ∷ declared p

-- `p.F` and the assignment to it.
unfoldable pub get_field : Bytes → Values → Option Value
get_field f [] = none
get_field f ((n, v) ∷ p) = let rest = get_field f p in if n == f then some v else rest

unfoldable pub set_field : Bytes → Value → Values → Values
set_field f w [] = []
set_field f w ((n, v) ∷ p) =
    let rest = set_field f w p in if n == f then (n, w) ∷ p else (n, v) ∷ rest

-- How a method ends. `ill_typed` stands for code that the compiler refuses.
pub data Ended {ℓ} (A : Type ℓ) : Type ℓ where
  finished : A → Ended A
  failed : Error → Ended A
  panicked : Ended A
  ill_typed : Ended A

-- The big-endian bytes of a number of a width, and of the numbers of a slice.
unfoldable pub be_bytes : ℕ → ℕ → Bytes
be_bytes zero v = []
be_bytes (suc n) v = be_bytes n (v / 256) ++ v % 256 ∷ []

unfoldable pub be_all : ℕ → List ℕ → Bytes
unfolding be_bytes
be_all n [] = []
be_all n (v ∷ vs) = be_bytes n v ++ be_all n vs

abbrev pub put_length : Bytes → Option Value → Ended Bytes
put_length buff (some (text s)) = finished (buff ++ length s % 256 ∷ [])
put_length buff (some (numbers t vs)) = finished (buff ++ length vs % 256 ∷ [])
put_length buff _ = ill_typed

-- `WriteString` writes the whole string and returns its length.
abbrev pub put_string : Bytes → Option Value → Ended Bytes
put_string buff (some (text s)) =
    let n = length s in if n == length s then finished (buff ++ s) else failed unexpected_eof
put_string buff _ = ill_typed

abbrev pub put_binary : Bytes → Option Value → Ended Bytes
put_binary buff (some (number t v)) = finished (buff ++ be_bytes (width t) v)
put_binary buff (some (numbers t vs)) = finished (buff ++ be_all (width t) vs)
put_binary buff _ = ill_typed

unfoldable pub exec_write : ℕ → Values → WriteStmt → Bytes → Ended Bytes
unfolding get_field be_all
exec_write opcode p write_opcode buff = finished (buff ++ opcode ∷ [])
exec_write opcode p (write_length f) buff = put_length buff (get_field f p)
exec_write opcode p (write_string f) buff = put_string buff (get_field f p)
exec_write opcode p (write_binary f) buff = put_binary buff (get_field f p)
exec_write opcode p (panic_on_write ty f) buff = panicked

abbrev pub then_run {ℓ κ} : {A : Type ℓ} {B : Type κ} → Ended A → (A → Ended B) → Ended B
then_run (finished a) f = f a
then_run (failed e) f = failed e
then_run panicked f = panicked
then_run ill_typed f = ill_typed

unfoldable pub run_writes : ℕ → Values → List WriteStmt → Bytes → Ended Bytes
unfolding exec_write
run_writes opcode p [] buff = finished buff
run_writes opcode p (w ∷ ws) buff =
    then_run (exec_write opcode p w buff) (λ b. run_writes opcode p ws b)

-- `Marshal`, from an empty buffer, where the compiler takes its statements.
unfoldable pub run_marshal : ℕ → List WriteStmt → Values → Ended Bytes
unfolding run_writes check_writes
run_marshal opcode ws p =
    if check_writes (declared p) false ws then run_writes opcode p ws [] else ill_typed

-- What a statement reads for a field that now holds a value: `none` is code that does not compile.
abbrev pub read_text : R Value
read_text = do s ← unmarshal_string; return (text s)

abbrev pub read_u16_slice : R Value
read_u16_slice = do length ← read_byte; vs ← read_u16s length; return (numbers uint16 vs)

abbrev pub read_number : NumberType → R Value
read_number t = do buf ← read_full (width t); return (number t (from_be 0 buf))

abbrev pub string_read : Option Value → Option (R Value)
string_read (some (text s)) = some read_text
string_read _ = none

-- The buffer is a `[]uint16`, whatever the type of the field.
abbrev pub slice_read : Option Value → Option (R Value)
slice_read (some (numbers uint16 vs)) = some read_u16_slice
slice_read _ = none

-- `ReadB` into a number; into a slice that is there it would read as many numbers as it has.
abbrev pub binary_read : Option Value → Option (R Value)
binary_read (some (number t v)) = some (read_number t)
binary_read _ = none

abbrev pub assign : Bytes → Values → Result Value × Stream → Ended Values × Stream
assign f p (ok v, s) = (finished (set_field f v p), s)
assign f p (err e, s) = (failed e, s)

abbrev pub perform : Bytes → Values → Option (R Value) → Stream → Ended Values × Stream
perform f p none s = (ill_typed, s)
perform f p (some m) s = assign f p (m s)

unfoldable pub exec_read : ReadStmt → Values → Stream → Ended Values × Stream
unfolding get_field set_field unmarshal_string
exec_read (read_string f) p s = perform f p (string_read (get_field f p)) s
exec_read (read_slice f) p s = perform f p (slice_read (get_field f p)) s
exec_read (read_binary f) p s = perform f p (binary_read (get_field f p)) s
exec_read (panic_on_read ty f) p s = (panicked, s)

abbrev pub then_read :
    Ended Values × Stream → (Values → Stream → Ended Values × Stream) → Ended Values × Stream
then_read (finished p, s) f = f p s
then_read (failed e, s) f = (failed e, s)
then_read (panicked, s) f = (panicked, s)
then_read (ill_typed, s) f = (ill_typed, s)

-- `Unmarshal` into the struct `p`.
unfoldable pub run_unmarshal : List ReadStmt → Values → Stream → Ended Values × Stream
unfolding exec_read
run_unmarshal [] p s = (finished p, s)
run_unmarshal (r ∷ rs) p s = then_read (exec_read r p s) (λ q t. run_unmarshal rs q t)
