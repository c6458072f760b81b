-- ===== src/Reader/Counting.antt =====
-- reader/counting_reader.go: a reader that counts the bytes read.
pub mod Laws
pub mod Reads
use protohackers_go.Prelude.{
  ℕ, zero, suc, ◌+◌, ◌-◌, ◌*◌, ◌/◌, ◌%◌, ◌^◌, ◌≤◌, ◌<◌, ◌≡◌, refl, sym, ap, ◌∙◌, ◌≢◌, ◌↔◌, ◌⊎◌, inl,
  inr, Bool, true, false, not, ◌&&◌, ◌||◌, Option, none, some, List, [], ◌∷◌, ◌++◌, arith, ltb, leb,
  if◌then◌else◌, Bool-cases, Option-cases, Eq, ◌==◌, nat_eq, bytes_eq, Bytes, bytes_beq,
  bytes_beq_iff, ==_refl, ==→eq, ==_sym_false, codes, is_some, is_alphanumeric, all_of, digits,
  decimal, join, trim_left, trim_right, lines_from, read_lines, length, set, concat, get_elem?,
  take, drop, replicate, All, append_nil, length-append, length-take, length-drop, length-replicate,
  take-append, drop-append, take-append-drop, take_all, drop_all, split_at, List-cases,
  index_of-some, length_pos, All-append, All-mono, All-zip, Any, erase_idx, erase_idx-All,
  length-erase_idx, delete_func, delete_func-All, contains, index_of, find_first, find_first-some,
  find_first-none, All-get_elem?, contains-append, index_of-none, index_of-lt, Distinct,
  Distinct-append, contains-erase_idx_ne, contains-erase_idx_le, erase_idx-Distinct,
  contains-erase_idx_self, update, Outcome, Outcome-cases, done, panic, Returns,
}
use protohackers_go.Reader.Conn.{
  Stream, R, Result, ok, err, Error, eof, unexpected_eof, short, push, read, from_be, bytes_in,
}
use protohackers_go.Reader.{first_byte, from_le, reverse_bytes}

-- The reader under it and the 64 bits of `BytesRead`.
pub record CountingReader : Type 0 where
  pub reader : Stream
  pub bytes_read : ℕ

abbrev pub C {ℓ} : Type ℓ → Type ℓ
C A = CountingReader → Result A × CountingReader

abbrev pub return {ℓ} : {A : Type ℓ} → A → C A
return a cr = (ok a, cr)

abbrev pub fail {ℓ} : {A : Type ℓ} → Error → C A
fail e cr = (err e, cr)

abbrev pub follow {ℓ κ} :
    {A : Type ℓ} {B : Type κ} → Result A × CountingReader → (A → C B) → Result B × CountingReader
follow (ok a, cr) f = f a cr
follow (err e, cr) f = (err e, cr)

infixl 5 ◌>>=◌
abbrev pub ◌>>=◌ {ℓ κ} : {A : Type ℓ} {B : Type κ} → C A → (A → C B) → C B
◌>>=◌ m f cr = follow (m cr) f

-- How many bytes a `Read` reports.
abbrev pub readed : Result Bytes → ℕ
readed (ok bs) = length bs
readed (err e) = 0

unfoldable pub read_counted : ℕ → C Bytes
unfolding read
read_counted n cr =
    let (r, rest) = read n cr.reader in
    (r, record { reader = rest; bytes_read = (cr.bytes_read + readed r) % 2 ^ 64 })

abbrev pub prepend : Bytes → Result Bytes × CountingReader → Result Bytes × CountingReader
prepend c (ok bs, cr) = (ok (c ++ bs), cr)
prepend c (err e, cr) = (err e, cr)

-- `io.ReadFull` on it: a `Read` for each segment, until there are `n` bytes.
unfoldable pub read_more_counted : Bool → Stream → ℕ → ℕ → Result Bytes × CountingReader
read_more_counted started s zero k = (ok [], record { reader = s; bytes_read = k })
read_more_counted started [] (suc n) k =
    (err (if started then unexpected_eof else eof), record { reader = []; bytes_read = k })
read_more_counted started (c ∷ cs) (suc n) k =
    let more = prepend c (read_more_counted true cs (suc n - length c) ((k + length c) % 2 ^ 64)) in
    let rest = push (drop (suc n) c) cs in
    if leb (suc n) (length c)
    then (ok (take (suc n) c), record { reader = rest; bytes_read = (k + suc n) % 2 ^ 64 })
    else more

unfoldable pub read_full_counted : ℕ → C Bytes
unfolding read_more_counted
read_full_counted n cr = read_more_counted false cr.reader n cr.bytes_read

-- `ReadB` and `ReadL` into the types of the plain reader.
unfoldable pub read_u16_counted : C ℕ
unfolding read_full_counted from_be
read_u16_counted = do buf ← read_full_counted 2; return (from_be 0 buf)

unfoldable pub read_u32_counted : C ℕ
unfolding read_full_counted from_be
read_u32_counted = do buf ← read_full_counted 4; return (from_be 0 buf)

unfoldable pub read_l16_counted : C ℕ
unfolding read_full_counted
read_l16_counted = do buf ← read_full_counted 2; return (from_le buf)

unfoldable pub read_l32_counted : C ℕ
unfolding read_full_counted
read_l32_counted = do buf ← read_full_counted 4; return (from_le buf)

unfoldable pub read_n_counted : ℕ → C Bytes
unfolding read_counted
read_n_counted n = do buf ← read_counted n; if length buf == n then return buf else fail short

skipped_counted : ℕ → Result Bytes × CountingReader → ℕ × Result (Unit {0}) × CountingReader
skipped_counted n (ok buf, cr) = (length buf, if length buf == n then ok tt else err short, cr)
skipped_counted n (err e, cr) = (0, err e, cr)

unfoldable pub skip_n_counted : ℕ → CountingReader → ℕ × Result (Unit {0}) × CountingReader
unfolding read_counted skipped_counted
skip_n_counted n cr = skipped_counted n (read_counted n cr)

unfoldable pub read_string_fixed_counted : ℕ → C Bytes
unfolding read_full_counted
read_string_fixed_counted n = read_full_counted n

-- `ReadReverseBytes`, which panics on an error.
abbrev pub reversed : Result Bytes × CountingReader → Outcome (Bytes × CountingReader)
reversed (ok buf, cr) = done (reverse_bytes buf, cr)
reversed (err e, cr) = panic

unfoldable pub read_reverse_bytes_counted : ℕ → CountingReader → Outcome (Bytes × CountingReader)
unfolding read_full_counted
read_reverse_bytes_counted n cr = reversed (read_full_counted n cr)

-- `io.ReadAll`.
abbrev pub read_all_counted : C Bytes
read_all_counted cr = (
  ok (concat cr.reader),
  record { reader = []; bytes_read = (cr.bytes_read + bytes_in cr.reader) % 2 ^ 64 },
)

-- `ReadString`, as in the plain reader.
abbrev pub CountedString : Type 0
CountedString = Option (Result Bytes × CountingReader)

abbrev pub go_on :
    (ℕ → CountingReader → CountedString) → Result Bytes × CountingReader → CountedString
go_on loop (ok buf, cr) = loop (first_byte buf) cr
go_on loop (err e, cr) = some (err e, cr)

unfoldable pub string_from_counted : ℕ → Bytes → ℕ → CountingReader → CountedString
unfolding read_full_counted
string_from_counted zero bb b cr = none
string_from_counted (suc n) bb b cr =
    let more = go_on (string_from_counted n (bb ++ b ∷ [])) (read_full_counted 1 cr) in
    if b == 0 then some (ok bb, cr) else more

abbrev pub start :
    (ℕ → CountingReader → CountedString) → Result Bytes × CountingReader → CountedString
start loop (ok buf, cr) = loop (first_byte buf) cr
start loop (err e, cr) = loop 0 cr

unfoldable pub read_string_counted : CountingReader → CountedString
unfolding string_from_counted read_full_counted
read_string_counted cr =
    start (string_from_counted (bytes_in cr.reader + 1) []) (read_full_counted 1 cr)
