-- ===== src/Genpackets/Checks.antt =====
-- What the Go compiler checks of the statements that genpackets/genpackets.go writes and that depends on
-- the structs: the scope of the variable `n`, the names and types of the fields, and the imports. The
-- declarations themselves, and a method `Opcode` for each struct, are written by hand.
use protohackers_go.Prelude.{
  ℕ, suc, Bool, true, false, not, ◌&&◌, ◌||◌, Option, none, some, List, [], ◌∷◌, leb, if◌then◌else◌,
  ◌==◌, nat_eq, bytes_eq, Bytes, codes, take, contains,
}
use protohackers_go.Genpackets.Source.{Field, StructInfo}
use protohackers_go.Genpackets.Template.{
  WriteStmt, write_opcode, write_length, write_string, write_binary, panic_on_write, ReadStmt,
  read_string, read_slice, read_binary, panic_on_read, number_types, slice_types, marshal_of,
  unmarshal_of,
}

-- The type of the field `F` in the declaration.
unfoldable pub field_type : Bytes → List Field → Option Bytes
field_type f [] = none
field_type f (d ∷ ds) = let rest = field_type f ds in if d.name == f then some d.type_ else rest

-- Whether `len` takes values of the type.
abbrev pub has_len : Bytes → Bool
has_len ty = ty == codes "string" || take 2 ty == codes "[]"

abbrev pub is_of : (Bytes → Bool) → Option Bytes → Bool
is_of q none = false
is_of q (some ty) = q ty

-- One statement of `Marshal`: whether `n` is declared in front of it and behind it; `none` if it does
-- not compile. `n, err := ...` declares `n`, and is refused where that leaves no new variable.
unfoldable pub check_write : List Field → Bool → WriteStmt → Option Bool
unfolding field_type
check_write ds n write_opcode = some n
check_write ds n (write_length f) = if is_of has_len (field_type f ds) then some n else none
check_write ds true (write_string f) = none
check_write ds false (write_string f) =
    if is_of (λ ty. ty == codes "string") (field_type f ds) then some true else none
check_write ds n (write_binary f) = some n
check_write ds n (panic_on_write ty f) = some n

abbrev pub then_check : Option Bool → (Bool → Bool) → Bool
then_check none f = false
then_check (some n) f = f n

unfoldable pub check_writes : List Field → Bool → List WriteStmt → Bool
unfolding check_write
check_writes ds n [] = true
check_writes ds n (w ∷ ws) = then_check (check_write ds n w) (λ m. check_writes ds m ws)

-- The statements of `Unmarshal`, each in a block of its own. What is assigned is a string or a
-- `[]uint16`.
unfoldable pub check_read : List Field → ReadStmt → Bool
unfolding field_type
check_read ds (read_string f) = is_of (λ ty. ty == codes "string") (field_type f ds)
check_read ds (read_slice f) = is_of (λ ty. ty == codes "[]uint16") (field_type f ds)
check_read ds (read_binary f) = true
check_read ds (panic_on_read ty f) = true

abbrev pub every {ℓ} : {A : Type ℓ} → (A → Bool) → List A → Bool
every q [] = true
every q (x ∷ xs) = q x && every q xs

abbrev pub some_of {ℓ} : {A : Type ℓ} → (A → Bool) → List A → Bool
some_of q [] = false
some_of q (x ∷ xs) = q x || some_of q xs

-- A field cannot have the name of a method, and `p._` is refused.
abbrev pub taken_names : List Bytes
taken_names = codes "Opcode" ∷ codes "Marshal" ∷ codes "Unmarshal" ∷ codes "_" ∷ []

abbrev pub has_free_name : Field → Bool
has_free_name f = not (contains taken_names f.name)

unfoldable pub check_struct : StructInfo → Bool
unfolding check_writes check_read marshal_of unmarshal_of
check_struct s =
    every has_free_name s.fields
    && (check_writes s.fields false (marshal_of s) && every (check_read s.fields) (unmarshal_of s))

-- `encoding/binary` and the package `reader` are imported, and must be used. `bytes` and `io` are used by
-- the methods of any struct.
abbrev pub uses_binary : WriteStmt → Bool
uses_binary (write_binary f) = true
uses_binary w = false

abbrev pub uses_reader : ReadStmt → Bool
uses_reader (panic_on_read ty f) = false
uses_reader r = true

-- The file that is written for some structs.
unfoldable pub check_file : List StructInfo → Bool
unfolding check_struct marshal_of unmarshal_of
check_file structs =
    every check_struct structs
    && (some_of (λ s. some_of uses_binary (marshal_of s)) structs
        && some_of (λ s. some_of uses_reader (unmarshal_of s)) structs)

-- The same from the fields alone.
abbrev pub strings : List Field → ℕ
strings [] = 0
strings (f ∷ fs) = let rest = strings fs in if f.type_ == codes "string" then suc rest else rest

abbrev pub suits : Field → Bool
suits f = not (contains slice_types f.type_) || f.type_ == codes "[]uint16"

abbrev pub suits_struct : StructInfo → Bool
suits_struct s = every has_free_name s.fields && (leb (strings s.fields) 1 && every suits s.fields)

abbrev pub is_binary : Field → Bool
is_binary f = contains slice_types f.type_ || contains number_types f.type_
