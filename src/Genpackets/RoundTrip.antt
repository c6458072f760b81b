-- ===== src/Genpackets/RoundTrip.antt =====
-- The methods that genpackets/genpackets.go writes for a struct: what its Marshal writes, its Unmarshal
-- reads.
use protohackers_go.Prelude.{
  Bool, true, zero, suc, get_elem?, ℕ, ◌%◌, ◌≡◌, refl, ap, ◌∙◌, false, some, List, [], ◌∷◌, ◌++◌,
  arith, nat_eq, bytes_eq, ==_refl, Bytes, length, All, contains, Distinct, append_nil,
}
use protohackers_go.Reader.Conn.{Stream, R, push}
use protohackers_go.Reader.Laws.{Reads, Reads->>=, Reads-last, Reads-number}
use protohackers_go.Reader.Segments.{OneSegment, one_segment, read_full-Reads_here}
use protohackers_go.Traffic.Codec.RoundTrip.{unmarshal_string-Reads}
use protohackers_go.Genpackets.Source.{StructInfo}
use protohackers_go.Genpackets.Checks.{check_writes, every, check_struct, check_file}
use protohackers_go.Genpackets.Template.{
  WriteStmt, write_fields, read_field, marshal_of, unmarshal_of,
}
use protohackers_go.Genpackets.Run.{
  width, Value, text, number, numbers, Values, declared, get_field, set_field, finished, be_bytes,
  be_all, exec_write, run_writes, run_marshal, read_text, read_u16_slice, read_number, perform,
  exec_read, run_unmarshal,
}
use mathlib.Core.List.{map, append_assoc}
use protohackers_go.Genpackets.Fields.{
  be_all-be16s, from_be-be_bytes, length-be_bytes, body_of, zero_of, FitsValue, names, zeros,
  bodies, writes_of, read_of, write_field_lem, read_field_lem, get_field-append, set_field-append,
  get_field_here, set_field_here, Fresh, step-Fresh,
}

-- One field of `Marshal`.
module _ (opcode : ℕ) (p : Values) where
  run_writes-field :
      (n : Bytes) (v : Value) (ws : List WriteStmt) (b : Bytes)
      → FitsValue v
      → get_field n p ≡ some v
      → run_writes opcode p (writes_of n v ++ ws) b ≡ run_writes opcode p ws (b ++ body_of v)
  unfolding run_writes exec_write
  run_writes-field n (text s) ws b f g =
      let small : length s % 256 ≡ length s = omega arith in
      rw (g, small, ==_refl (length s)) (rw (append_assoc b (length s ∷ []) s) refl)
  run_writes-field n (number t v) ws b f g = rw g refl
  run_writes-field n (numbers t vs) ws b f g =
      let small : length vs % 256 ≡ length vs = omega (arith, f.1) in
      rw (g, small) (rw (append_assoc b (length vs ∷ []) (be_all (width t) vs)) refl)

moved :
    (pre rest : Values) (n : Bytes) (v : Value)
    → (pre ++ (n, v) ∷ []) ++ rest ≡ pre ++ ((n, v) ∷ rest)
moved pre rest n v = append_assoc pre ((n, v) ∷ []) rest

run_writes-fields :
    (opcode : ℕ) (pre rest : Values) (b : Bytes)
    → Fresh pre rest
    → All (λ f. FitsValue f.1) rest
    → run_writes opcode (pre ++ rest) (write_fields (declared rest)) b ≡ finished (b ++ bodies rest)
unfolding write_fields
run_writes-fields opcode pre [] b d f = unfold run_writes in rw (append_nil b) refl
run_writes-fields opcode pre ((n, v) ∷ rest) b d f =
    let p = pre ++ ((n, v) ∷ rest) in
    let found : get_field n p ≡ some v =
      get_field-append pre ((n, v) ∷ rest) n d.0.0 ∙ get_field_here n v rest in
    let others =
      run_writes-fields opcode (pre ++ (n, v) ∷ []) rest (b ++ body_of v)
        (step-Fresh pre rest n v d) f.1 in
    rw (write_field_lem n v) (
      run_writes-field opcode p n v (write_fields (declared rest)) b f.0 found
      ∙ rw (moved pre rest n v, append_assoc b (body_of v) (bodies rest)) at others)

-- How a field is read, and that it is read back.
abbrev reader_of : Value → R Value
reader_of (text s) = read_text
reader_of (number t v) = read_number t
reader_of (numbers t vs) = read_u16_slice

module _ {cs : Stream} where
  reader_of-Reads : (v : Value) → FitsValue v → Reads (OneSegment cs) (reader_of v) (body_of v) v
  reader_of-Reads (text s) f = Reads-last _ (unmarshal_string-Reads s)
  reader_of-Reads (number t v) f =
      Reads-number _ (number t v)
        (read_full-Reads_here (width t) (be_bytes (width t) v) (length-be_bytes (width t) v))
        (ap (number t) (from_be-be_bytes (width t) v f))
  reader_of-Reads (numbers t vs) f =
      rw (f.0, be_all-be16s vs)
        (Reads->>= _ (one_segment.byte (length vs)) (Reads-last _ (one_segment.u16s vs f.2)))

exec_read-perform :
    (n : Bytes) (v : Value) (p : Values) (s : Stream)
    → FitsValue v
    → get_field n p ≡ some (zero_of v)
    → exec_read (read_of n v) p s ≡ perform n p (some (reader_of v)) s
unfolding exec_read
exec_read-perform n (text t) p s f g = rw g refl
exec_read-perform n (number t v) p s f g = rw g refl
exec_read-perform n (numbers t vs) p s f g = rw (g, f.0) refl

run_unmarshal-fields :
    (pre rest : Values) (ys : Bytes) (cs : Stream)
    → Fresh pre rest
    → All (λ f. FitsValue f.1) rest
    → run_unmarshal
        (map read_field (declared rest))
        (pre ++ zeros rest)
        (push (bodies rest ++ ys) cs)
      ≡ (finished (pre ++ rest), push ys cs)
unfolding run_unmarshal
run_unmarshal-fields pre [] ys cs d f = refl
run_unmarshal-fields pre ((n, v) ∷ rest) ys cs d f =
    let p = pre ++ ((n, zero_of v) ∷ zeros rest) in
    let found : get_field n p ≡ some (zero_of v) =
      get_field-append pre ((n, zero_of v) ∷ zeros rest) n d.0.0
      ∙ get_field_here n (zero_of v) (zeros rest) in
    let put : set_field n v p ≡ pre ++ ((n, v) ∷ zeros rest) =
      set_field-append pre ((n, zero_of v) ∷ zeros rest) n v d.0.0
      ∙ ap (λ q. pre ++ q) (set_field_here n (zero_of v) v (zeros rest)) in
    let s = push ((body_of v ++ bodies rest) ++ ys) cs in
    let (t, e, h) =
      (reader_of-Reads {cs = cs} v f.0).run s (bodies rest ++ ys)
        (rw (append_assoc (body_of v) (bodies rest) ys) refl) in
    let others =
      run_unmarshal-fields (pre ++ (n, v) ∷ []) rest ys cs (step-Fresh pre rest n v d) f.1 in
    rw (read_field_lem n v, exec_read-perform n v p s f.0 found, e, put, h)
      (rw (moved pre (zeros rest) n v, moved pre rest n v) at others)

-- The declaration of a struct of some name.
abbrev pub struct_of : Bytes → Values → StructInfo
struct_of name p = record { name = name; fields = declared p }

every-get_elem? :
    {A : Type 0} (q : A → Bool) (xs : List A) (i : ℕ) (x : A)
    → every q xs ≡ true
    → get_elem? xs i ≡ some x
    → q x ≡ true
every-get_elem? q [] i x h e = cc
every-get_elem? q (y ∷ ys) zero x h e =
    let here : q y ≡ true = ground arith in let same : y ≡ x = cc in rw same at here
every-get_elem? q (y ∷ ys) (suc i) x h e = every-get_elem? q ys i x (ground arith) e

check_file-marshal :
    (ss : List StructInfo) (i : ℕ) (s : StructInfo)
    → check_file ss ≡ true
    → get_elem? ss i ≡ some s
    → check_writes s.fields false (marshal_of s) ≡ true
unfolding check_file check_struct
check_file-marshal ss i s h e =
    let all : every check_struct ss ≡ true = ground arith in
    let here : check_struct s ≡ true = every-get_elem? check_struct ss i s all e in ground arith

all_fresh : (ns : List Bytes) → All (λ n. contains [] n ≡ false) ns
unfolding contains
all_fresh [] = tt
all_fresh (n ∷ ns) = (refl, all_fresh ns)

-- In a file that passes the checks of the compiler that depend on what the template writes, for a struct
-- whose fields have distinct names, are strings, slices of `uint16` or numbers of any of the eight
-- types, and fit: the generated `Marshal` finishes, and where its bytes stand in one segment,
-- the generated `Unmarshal` reads exactly those behind the opcode and gives every field its value back.
pub unmarshal-marshal_fields :
    (ss : List StructInfo) (i : ℕ) (name : Bytes) (opcode : ℕ) (p : Values) (rest : Bytes)
    (cs : Stream)
    → check_file ss ≡ true
    → get_elem? ss i ≡ some (struct_of name p)
    → Distinct (names p)
    → All (λ f. FitsValue f.1) p
    → (bs : Bytes) × (run_marshal opcode (marshal_of (struct_of name p)) p ≡ finished (opcode ∷ bs))
      × (run_unmarshal (unmarshal_of (struct_of name p)) (zeros p) (push (bs ++ rest) cs)
          ≡ (finished p, push rest cs))
unfolding run_marshal marshal_of unmarshal_of run_writes exec_write
unmarshal-marshal_fields ss i name opcode p rest cs compiles e d f =
    let fresh : Fresh [] p = (all_fresh (names p), d) in
    let good = check_file-marshal ss i (struct_of name p) compiles e in
    (
      bodies p,
      rw good (run_writes-fields opcode [] p (opcode ∷ []) fresh f),
      run_unmarshal-fields [] p rest cs fresh f,
    )
