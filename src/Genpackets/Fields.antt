-- ===== src/Genpackets/Fields.antt =====
-- The fields of a struct in genpackets/genpackets.go: what the template writes for each type, and the
-- fields found by their names.
use protohackers_go.Prelude.{
  true, codes, ℕ, zero, suc, ◌+◌, ◌*◌, ◌/◌, ◌%◌, ◌^◌, ◌<◌, ◌≡◌, refl, false, some, List, [], ◌∷◌,
  ◌++◌, arith, ◌==◌, nat_eq, bytes_eq, bytes_beq, ==_refl, ==_sym_false, Bytes, length, All,
  contains, Distinct, length-append,
}
use protohackers_go.Reader.Conn.{from_be, be16, be16s}
use protohackers_go.Genpackets.Template.{
  number_types, slice_types, WriteStmt, write_length, write_string, write_binary, ReadStmt,
  read_string, read_slice, read_binary, write_field, read_field,
}
use protohackers_go.Genpackets.Run.{
  NumberType, name_of, int64, int32, int16, int8, uint64, uint32, uint16, uint8, width, Value, text,
  number, numbers, type_of, Values, get_field, set_field, be_bytes, be_all,
}
use mathlib.Core.List.{map}

from_be-append : (acc b : ℕ) (xs : Bytes) → from_be acc (xs ++ b ∷ []) ≡ from_be acc xs * 256 + b
unfolding from_be
from_be-append acc b [] = refl
from_be-append acc b (x ∷ xs) = from_be-append (acc * 256 + x) b xs

pub from_be-be_bytes : (n v : ℕ) → v < 256 ^ n → from_be 0 (be_bytes n v) ≡ v
unfolding be_bytes from_be
from_be-be_bytes zero v h = omega arith
from_be-be_bytes (suc n) v h =
    let small : v / 256 < 256 ^ n = omega arith in
    omega
      (arith, from_be-append 0 (v % 256) (be_bytes n (v / 256)), from_be-be_bytes n (v / 256) small)

pub length-be_bytes : (n v : ℕ) → length (be_bytes n v) ≡ n
unfolding be_bytes
length-be_bytes zero v = refl
length-be_bytes (suc n) v =
    omega (arith, length-append (be_bytes n (v / 256)) (v % 256 ∷ []), length-be_bytes n (v / 256))

pub be_all-be16s : (vs : List ℕ) → be_all 2 vs ≡ be16s vs
unfolding be_all be_bytes be16s be16
be_all-be16s [] = refl
be_all-be16s (v ∷ vs) = rw (be_all-be16s vs) refl

-- The bytes of a value.
abbrev pub body_of : Value → Bytes
body_of (text s) = length s ∷ [] ++ s
body_of (number t v) = be_bytes (width t) v
body_of (numbers t vs) = length vs ∷ [] ++ be_all (width t) vs

-- The zero value of the type.
abbrev pub zero_of : Value → Value
zero_of (text s) = text []
zero_of (number t v) = number t 0
zero_of (numbers t vs) = numbers t []

-- The value is in the range of its type, a length fits the byte that it is sent in, and a slice is one
-- of `uint16`.
abbrev pub FitsValue : Value → Type 0
FitsValue (text s) = length s < 256
FitsValue (number t v) = v < 256 ^ width t
FitsValue (numbers t vs) = (t ≡ uint16) × (length vs < 256) × All (λ v. v < 2 ^ 16) vs

abbrev pub names : Values → List Bytes
names p = map (λ f. f.0) p

abbrev pub zeros : Values → Values
zeros p = map (λ f. (f.0, zero_of f.1)) p

abbrev pub bodies : Values → Bytes
bodies [] = []
bodies ((n, v) ∷ p) = body_of v ++ bodies p

-- What the template writes for a field of the type of a value.
abbrev pub writes_of : Bytes → Value → List WriteStmt
writes_of n (text s) = write_length n ∷ write_string n ∷ []
writes_of n (number t v) = write_binary n ∷ []
writes_of n (numbers t vs) = write_length n ∷ write_binary n ∷ []

abbrev pub read_of : Bytes → Value → ReadStmt
read_of n (text s) = read_string n
read_of n (number t v) = read_binary n
read_of n (numbers t vs) = read_slice n

-- The branch of the template that the type of a number and of a slice takes.
number_branch :
    (t : NumberType)
    → ((name_of t == codes "string") ≡ false)
      × (contains slice_types (name_of t) ≡ false)
      × (contains number_types (name_of t) ≡ true)
unfolding contains bytes_beq
number_branch int64 = (refl, refl, refl)
number_branch int32 = (refl, refl, refl)
number_branch int16 = (refl, refl, refl)
number_branch int8 = (refl, refl, refl)
number_branch uint64 = (refl, refl, refl)
number_branch uint32 = (refl, refl, refl)
number_branch uint16 = (refl, refl, refl)
number_branch uint8 = (refl, refl, refl)

slice_branch :
    (t : NumberType)
    → ((codes "[]" ++ name_of t == codes "string") ≡ false)
      × (contains slice_types (codes "[]" ++ name_of t) ≡ true)
unfolding contains bytes_beq
slice_branch int64 = (refl, refl)
slice_branch int32 = (refl, refl)
slice_branch int16 = (refl, refl)
slice_branch int8 = (refl, refl)
slice_branch uint64 = (refl, refl)
slice_branch uint32 = (refl, refl)
slice_branch uint16 = (refl, refl)
slice_branch uint8 = (refl, refl)

pub write_field_lem :
    (n : Bytes) (v : Value) → write_field (record { name = n; type_ = type_of v }) ≡ writes_of n v
unfolding write_field bytes_beq
write_field_lem n (text s) = refl
write_field_lem n (number t v) = let (a, b, c) = number_branch t in rw (a, b, c) refl
write_field_lem n (numbers t vs) = let (a, b) = slice_branch t in rw (a, b) refl

pub read_field_lem :
    (n : Bytes) (v : Value) → read_field (record { name = n; type_ = type_of v }) ≡ read_of n v
unfolding read_field bytes_beq
read_field_lem n (text s) = refl
read_field_lem n (number t v) = let (a, b, c) = number_branch t in rw (a, b, c) refl
read_field_lem n (numbers t vs) = let (a, b) = slice_branch t in rw (a, b) refl

-- A field behind others that have another name.
pub get_field-append :
    (pre rest : Values) (n : Bytes)
    → contains (names pre) n ≡ false
    → get_field n (pre ++ rest) ≡ get_field n rest
unfolding get_field contains
get_field-append [] rest n h = refl
get_field-append ((m, w) ∷ pre) rest n h = ground (arith, get_field-append pre rest n)

pub set_field-append :
    (pre rest : Values) (n : Bytes) (v : Value)
    → contains (names pre) n ≡ false
    → set_field n v (pre ++ rest) ≡ pre ++ set_field n v rest
unfolding set_field contains
set_field-append [] rest n v h = refl
set_field-append ((m, w) ∷ pre) rest n v h = ground (arith, set_field-append pre rest n v)

pub get_field_here : (n : Bytes) (v : Value) (p : Values) → get_field n ((n, v) ∷ p) ≡ some v
unfolding get_field
get_field_here n v p = rw (==_refl n) refl

pub set_field_here :
    (n : Bytes) (v w : Value) (p : Values) → set_field n w ((n, v) ∷ p) ≡ (n, w) ∷ p
unfolding set_field
set_field_here n v w p = rw (==_refl n) refl

-- The names of `rest` are distinct, and none of them is in `pre`.
abbrev pub Fresh : Values → Values → Type 0
Fresh pre rest = All (λ n. contains (names pre) n ≡ false) (names rest) × Distinct (names rest)

not_in_longer :
    (pre : Values) (n m : Bytes) (v : Value)
    → contains (names pre) m ≡ false
    → (m == n) ≡ false
    → contains (names (pre ++ (n, v) ∷ [])) m ≡ false
unfolding contains
not_in_longer [] n m v h k = rw (==_sym_false m n k) refl
not_in_longer ((l, w) ∷ pre) n m v h k = ground (arith, not_in_longer pre n m v)

not_in_rest :
    (m n : Bytes) (ms : List Bytes)
    → contains (m ∷ ms) n ≡ false
    → ((m == n) ≡ false) × (contains ms n ≡ false)
unfolding contains
not_in_rest m n ms h = ground arith

pub step-Fresh :
    (pre rest : Values) (n : Bytes) (v : Value)
    → Fresh pre ((n, v) ∷ rest)
    → Fresh (pre ++ (n, v) ∷ []) rest
step-Fresh pre rest n v f = (others (names rest) f.0.1 f.1.0, f.1.1)
  where
    others :
        (ms : List Bytes)
        → All (λ m. contains (names pre) m ≡ false) ms
        → contains ms n ≡ false
        → All (λ m. contains (names (pre ++ (n, v) ∷ [])) m ≡ false) ms
    others [] h k = tt
    others (m ∷ ms) h k =
        let (ne, later) = not_in_rest m n ms k in
        (not_in_longer pre n m v h.0 ne, others ms h.1 later)
