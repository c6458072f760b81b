-- ===== src/Reader.antt =====
-- reader/reader.go: reads of bytes and big-endian numbers from a connection.
pub mod Conn
pub mod Laws
pub mod Segments
pub mod Shrinks
pub mod Reverse
pub mod Strings
pub mod Counting
mod Tests
use protohackers_go.Prelude.{
  ℕ, zero, suc, ◌+◌, ◌-◌, ◌*◌, ◌/◌, ◌%◌, ◌^◌, ◌≤◌, ◌<◌, ◌≡◌, refl, sym, ap, ◌∙◌, ◌≢◌, ◌↔◌, ◌⊎◌, inl,
  inr, Bool, true, false, not, ◌&&◌, ◌||◌, Option, none, some, List, [], ◌∷◌, ◌++◌, arith, ltb, leb,
  if◌then◌else◌, Bool-cases, Option-cases, Eq, ◌==◌, nat_eq, bytes_eq, Bytes, bytes_beq,
  bytes_beq_iff, ==_refl, ==→eq, ==_sym_false, length, set, concat, get_elem?, take, drop,
  replicate, All, length-append, length-take, length-drop, length-replicate, take-append,
  drop-append, take_all, drop_all, split_at, List-cases, index_of-some, length_pos, All-append,
  All-mono, erase_idx, erase_idx-All, length-erase_idx, delete_func, delete_func-All, contains,
  index_of, contains-append, index_of-none, index_of-lt, Distinct, Distinct-append,
  contains-erase_idx_ne, contains-erase_idx_le, erase_idx-Distinct, contains-erase_idx_self, update,
  Outcome, done, panic, Returns, >>=-Returns,
}
use Conn.{
  Stream, R, Result, Error, ok, err, eof, unexpected_eof, next, ◌>>=◌, return, fail, read,
  read_full, read_more, from_be, from_be16s, bytes_in,
}
use mathlib.Core.List.{reverse}

-- One `Read`, and an error if it brought less than was asked for.
unfoldable pub read_n : ℕ → R Bytes
unfolding read
read_n n = do buf ← read n; if length buf == n then return buf else fail unexpected_eof

-- `buf[0]` of a slice of length 1.
abbrev pub first_byte : Bytes → ℕ
first_byte [] = 0
first_byte (b ∷ bs) = b

unfoldable pub read_byte : R ℕ
unfolding read_n
read_byte = do buf ← read_n 1; return (first_byte buf)

-- `ReadB` into a `[]byte` of length `n`.
unfoldable pub read_bytes : ℕ → R Bytes
unfolding read_full
read_bytes n = read_full n

-- `ReadB` into a `uint16`, a `uint32` and a `[]uint16` of length `n`.
unfoldable pub read_u16 : R ℕ
unfolding read_full from_be
read_u16 = do buf ← read_full 2; return (from_be 0 buf)

unfoldable pub read_u32 : R ℕ
unfolding read_full from_be
read_u32 = do buf ← read_full 4; return (from_be 0 buf)

unfoldable pub read_u16s : ℕ → R (List ℕ)
unfolding read_full from_be16s
read_u16s n = do buf ← read_full (2 * n); return (from_be16s n buf)

skipped : ℕ → Result Bytes × Stream → ℕ × Result (Unit {0}) × Stream
skipped n (ok buf, s) = (length buf, if length buf == n then ok tt else err unexpected_eof, s)
skipped n (err e, s) = (0, err e, s)

-- The number of bytes skipped comes with the error too, so it stands outside the result.
unfoldable pub skip_n : ℕ → Stream → ℕ × Result (Unit {0}) × Stream
unfolding read skipped
skip_n n s = skipped n (read n s)

-- `ReadL` into a `uint16` and a `uint32`.
abbrev pub from_le : Bytes → ℕ
from_le bs = from_be 0 (reverse bs)

unfoldable pub read_l16 : R ℕ
unfolding read_full from_be
read_l16 = do buf ← read_full 2; return (from_le buf)

unfoldable pub read_l32 : R ℕ
unfolding read_full from_be
read_l32 = do buf ← read_full 4; return (from_le buf)

-- `ReverseBytes`: the loop from `i` upwards and `j` downwards, with a round for each byte.
abbrev pub put : ℕ → ℕ → Bytes → Option ℕ → Option ℕ → Bytes
put i j bs (some x) (some y) = set (set bs i y) j x
put i j bs _ _ = bs

abbrev pub swap : ℕ → ℕ → Bytes → Bytes
swap i j bs = put i j bs (get_elem? bs i) (get_elem? bs j)

unfoldable pub reverse_from : ℕ → ℕ → ℕ → Bytes → Bytes
reverse_from zero i j bs = bs
reverse_from (suc n) i j bs =
    let more = reverse_from n (i + 1) (j - 1) (swap i j bs) in if ltb i j then more else bs

unfoldable pub reverse_bytes : Bytes → Bytes
unfolding reverse_from
reverse_bytes bs = reverse_from (length bs) 0 (length bs - 1) bs

unfoldable pub read_reverse_bytes : ℕ → R Bytes
unfolding read_full reverse_bytes
read_reverse_bytes n = do buf ← read_full n; return (reverse_bytes buf)

unfoldable pub read_string_fixed : ℕ → R Bytes
unfolding read_full
read_string_fixed n = read_full n

-- `io.ReadAll`.
abbrev pub read_all : R Bytes
read_all s = (ok (concat s), [])

-- `ReadString`: the loop over the bytes up to a zero. `none` is the end of the fuel. The error of the
-- first read is not looked at, and leaves the byte 0.
abbrev pub go_on :
    (ℕ → Stream → Option (Result Bytes × Stream))
    → Result Bytes × Stream
    → Option (Result Bytes × Stream)
go_on loop (ok buf, s) = loop (first_byte buf) s
go_on loop (err e, s) = some (err e, s)

unfoldable pub string_from : ℕ → Bytes → ℕ → Stream → Option (Result Bytes × Stream)
unfolding read_full
string_from zero bb b s = none
string_from (suc n) bb b s =
    let more = go_on (string_from n (bb ++ b ∷ [])) (read_full 1 s) in
    if b == 0 then some (ok bb, s) else more

abbrev pub start :
    (ℕ → Stream → Option (Result Bytes × Stream))
    → Result Bytes × Stream
    → Option (Result Bytes × Stream)
start loop (ok buf, s) = loop (first_byte buf) s
start loop (err e, s) = loop 0 s

unfoldable pub read_string : Stream → Option (Result Bytes × Stream)
unfolding string_from read_full
read_string s = start (string_from (bytes_in s + 1) []) (read_full 1 s)
