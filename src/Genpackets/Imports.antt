-- ===== src/Genpackets/Imports.antt =====
-- Which of its imports the file uses that genpackets/genpackets.go writes.
use protohackers_go.Prelude.{
  ◌≡◌, refl, inl, inr, Bool, true, false, ◌||◌, List, [], ◌∷◌, ◌++◌, arith, Bool-cases, ◌==◌,
  nat_eq, bytes_eq, bytes_beq, ==→eq, codes, contains,
}
use protohackers_go.Genpackets.Source.{Field, StructInfo}
use protohackers_go.Genpackets.Template.{
  number_types, slice_types, write_field, read_field, write_fields, marshal_of, unmarshal_of,
}
use mathlib.Core.List.{map}
use protohackers_go.Genpackets.Checks.{some_of, uses_binary, uses_reader, is_binary}

some_of-append {ℓ} :
    {A : Type ℓ} (q : A → Bool) (xs ys : List A)
    → some_of q (xs ++ ys) ≡ (some_of q xs || some_of q ys)
some_of-append q [] ys = refl
some_of-append q (x ∷ xs) ys = ground (arith, some_of-append q xs ys)

string_binary :
    (contains slice_types (codes "string") || contains number_types (codes "string")) ≡ false
unfolding contains bytes_beq
string_binary = refl

write_field-binary : (f : Field) → some_of uses_binary (write_field f) ≡ is_binary f
unfolding write_field
write_field-binary f = elim (Bool-cases (f.type_ == codes "string")) [
  | inl text ↦
      let no : is_binary f ≡ false = rw (==→eq f.type_ (codes "string") text) string_binary in
      rw (text, no) refl
  | inr not_text ↦ elim (Bool-cases (contains slice_types f.type_)) [
    | inl slice ↦ rw (not_text, slice) refl
    | inr not_slice ↦ elim (Bool-cases (contains number_types f.type_)) [
      | inl number ↦ rw (not_text, not_slice, number) refl
      | inr other ↦ rw (not_text, not_slice, other) refl
    ]
  ]
]

write_fields-binary :
    (fs : List Field) → some_of uses_binary (write_fields fs) ≡ some_of is_binary fs
unfolding write_fields
write_fields-binary [] = refl
write_fields-binary (f ∷ fs) =
    rw
      (
        some_of-append uses_binary (write_field f) (write_fields fs),
        write_field-binary f,
        write_fields-binary fs,
      )
      refl

read_field-binary : (f : Field) → is_binary f ≡ true → uses_reader (read_field f) ≡ true
unfolding read_field
read_field-binary f h = elim (Bool-cases (f.type_ == codes "string")) [
  | inl text ↦ rw text refl
  | inr not_text ↦ elim (Bool-cases (contains slice_types f.type_)) [
    | inl slice ↦ rw (not_text, slice) refl
    | inr not_slice ↦
        let number : contains number_types f.type_ ≡ true = rw not_slice at h in
        rw (not_text, not_slice, number) refl
  ]
]

read_fields-binary :
    (fs : List Field) → some_of is_binary fs ≡ true → some_of uses_reader (map read_field fs) ≡ true
read_fields-binary [] h = cc
read_fields-binary (f ∷ fs) h = elim (Bool-cases (is_binary f)) [
  | inl yes_f ↦ rw (read_field-binary f yes_f) refl
  | inr no_f ↦
      let rest : some_of uses_reader (map read_field fs) ≡ true =
        read_fields-binary fs (rw no_f at h) in
      ground arith
]

pub structs_binary :
    (ss : List StructInfo)
    → some_of (λ s. some_of uses_binary (marshal_of s)) ss
      ≡ some_of (λ s. some_of is_binary s.fields) ss
unfolding marshal_of
structs_binary [] = refl
structs_binary (s ∷ ss) = rw (write_fields-binary s.fields, structs_binary ss) refl

pub structs_read :
    (ss : List StructInfo)
    → some_of (λ s. some_of is_binary s.fields) ss ≡ true
    → some_of (λ s. some_of uses_reader (unmarshal_of s)) ss ≡ true
unfolding unmarshal_of
structs_read [] h = cc
structs_read (s ∷ ss) h = elim (Bool-cases (some_of is_binary s.fields)) [
  | inl here ↦ rw (read_fields-binary s.fields here) refl
  | inr not_here ↦ let rest = structs_read ss (rw not_here at h) in ground (arith, rest)
]
