-- ===== src/Reader/Counting/Reads.antt =====
-- All reads of reader/counting_reader.go against those of reader/reader.go.
use protohackers_go.Prelude.{
  ℕ, zero, suc, ◌+◌, ◌^◌, ◌<◌, refl, inl, inr, Option, none, some, [], ◌∷◌, ◌++◌, Bool-cases, ◌==◌,
  nat_eq, bytes_eq, Bytes,
}
use protohackers_go.Reader.Conn.{Stream, Result, ok, err, from_be, read, read_full, bytes_in}
use protohackers_go.Reader.{
  first_byte, from_le, read_n, read_u16, read_u32, read_l16, read_l32, read_string, string_from,
  read_reverse_bytes, skip_n,
}
use mathlib.Core.Path.{subst}
use protohackers_go.Reader
use protohackers_go.Reader.Counting
use protohackers_go.Reader.Counting.{
  CountingReader, CountedString, C, follow, readed, read_counted, read_more_counted,
  read_full_counted, read_u16_counted, read_u32_counted, read_l16_counted, read_l32_counted,
  read_n_counted, skip_n_counted, read_reverse_bytes_counted, string_from_counted,
  read_string_counted,
}
use protohackers_go.Reader.Counting.Laws.{
  Counted, Same, Same-from, Counted-small, same_result, read-Counts, read_full-Counts,
  number-Counts, read_n-Counts,
}

abbrev pub SameString : Stream → ℕ → CountedString → Option (Result Bytes × Stream) → Type 0
SameString s k (some x) (some y) = Same s k x y
SameString s k none none = Unit
SameString s k _ _ = ⊥

SameString-from :
    (r s : Stream) (k : ℕ) (mid : CountingReader) (x : CountedString)
    (y : Option (Result Bytes × Stream))
    → Counted r s k mid
    → SameString s mid.bytes_read x y
    → SameString r k x y
SameString-from r s k mid (some x) (some y) a e = Same-from r s k mid x y a e
SameString-from r s k mid none none a e = tt
SameString-from r s k mid (some x) none a e = absurd e
SameString-from r s k mid none (some y) a e = absurd e

abbrev LoopsAlike :
    (ℕ → CountingReader → CountedString) → (ℕ → Stream → Option (Result Bytes × Stream)) → Type 0
LoopsAlike f g =
    (b : ℕ) (s : Stream) (k : ℕ)
    → k < 2 ^ 64
    → SameString s k (f b (record { reader = s; bytes_read = k })) (g b s)

from_here :
    (f : ℕ → CountingReader → CountedString) (g : ℕ → Stream → Option (Result Bytes × Stream))
    (b : ℕ) (s t : Stream) (k : ℕ) (cr : CountingReader)
    → LoopsAlike f g
    → Counted s t k cr
    → SameString s k (f b cr) (g b t)
from_here f g b s t k cr h p =
    subst (λ u. SameString s k (f b cr) (g b u)) p.rest
      (SameString-from s cr.reader k cr (f b cr) (g b cr.reader) (rw (← p.rest) at p)
        (h b cr.reader cr.bytes_read (Counted-small s t k cr p)))

go_on-alike :
    (f : ℕ → CountingReader → CountedString) (g : ℕ → Stream → Option (Result Bytes × Stream))
    (s : Stream) (k : ℕ) (x : Result Bytes × CountingReader) (y : Result Bytes × Stream)
    → LoopsAlike f g
    → Same s k x y
    → SameString s k (Counting.go_on f x) (Reader.go_on g y)
go_on-alike f g s k (ok a, cr) (ok b, t) h (e, p) =
    subst (λ b. SameString s k (f (first_byte a) cr) (g (first_byte b) t)) e
      (from_here f g (first_byte a) s t k cr h p)
go_on-alike f g s k (ok a, cr) (err e, t) h (q, p) = absurd q
go_on-alike f g s k (err e, cr) (ok b, t) h (q, p) = absurd q
go_on-alike f g s k (err e, cr) (err d, t) h (q, p) = (tt, p)

start-alike :
    (f : ℕ → CountingReader → CountedString) (g : ℕ → Stream → Option (Result Bytes × Stream))
    (s : Stream) (k : ℕ) (x : Result Bytes × CountingReader) (y : Result Bytes × Stream)
    → LoopsAlike f g
    → Same s k x y
    → SameString s k (Counting.start f x) (Reader.start g y)
start-alike f g s k (ok a, cr) (ok b, t) h (e, p) =
    subst (λ b. SameString s k (f (first_byte a) cr) (g (first_byte b) t)) e
      (from_here f g (first_byte a) s t k cr h p)
start-alike f g s k (ok a, cr) (err e, t) h (q, p) = absurd q
start-alike f g s k (err e, cr) (ok b, t) h (q, p) = absurd q
start-alike f g s k (err e, cr) (err d, t) h (q, p) = from_here f g 0 s t k cr h p

string_from-alike : (n : ℕ) (bb : Bytes) → LoopsAlike (string_from_counted n bb) (string_from n bb)
unfolding string_from_counted string_from
string_from-alike zero bb b s k h = tt
string_from-alike (suc n) bb b s k h = elim (Bool-cases (b == 0)) [
  | inl x ↦ rw x (same_result (ok bb) (ok bb) refl s k h)
  | inr x ↦ rw x (
      go_on-alike (string_from_counted n (bb ++ b ∷ [])) (string_from n (bb ++ b ∷ [])) s k
        (read_full_counted 1 (record { reader = s; bytes_read = k })) (read_full 1 s)
        (string_from-alike n (bb ++ b ∷ [])) (read_full-Counts 1 s k h))
]

-- `Read`, `ReadN`, `ReadString`, and `ReadB` and `ReadL` of bytes and numbers: each of the counting
-- reader brings what the same one of the plain reader brings, fails where it fails and leaves the same
-- bytes, and `BytesRead` grows by the number of bytes that were taken
-- from the connection, around 2 ^ 64.
pub counted_reads-Same :
    (n k : ℕ) (s : Stream)
    → k < 2 ^ 64
    → Same s k (read_counted n (record { reader = s; bytes_read = k })) (read n s)
      × Same s k (read_full_counted n (record { reader = s; bytes_read = k })) (read_full n s)
      × Same s k (read_n_counted n (record { reader = s; bytes_read = k })) (read_n n s)
      × Same s k (read_u16_counted (record { reader = s; bytes_read = k })) (read_u16 s)
      × Same s k (read_u32_counted (record { reader = s; bytes_read = k })) (read_u32 s)
      × Same s k (read_l16_counted (record { reader = s; bytes_read = k })) (read_l16 s)
      × Same s k (read_l32_counted (record { reader = s; bytes_read = k })) (read_l32 s)
      × SameString s k (read_string_counted (record { reader = s; bytes_read = k })) (read_string s)
unfolding read_u16_counted read_u16 read_u32_counted read_u32 read_l16_counted read_l16
    read_l32_counted read_l32 read_string_counted read_string
counted_reads-Same n k s h = (
  read-Counts n s k h,
  read_full-Counts n s k h,
  read_n-Counts n s k h,
  number-Counts 2 (from_be 0) s k h,
  number-Counts 4 (from_be 0) s k h,
  number-Counts 2 from_le s k h,
  number-Counts 4 from_le s k h,
  start-alike (string_from_counted (bytes_in s + 1) []) (string_from (bytes_in s + 1) []) s k
      (read_full_counted 1 (record { reader = s; bytes_read = k })) (read_full 1 s)
      (string_from-alike (bytes_in s + 1) []) (read_full-Counts 1 s k h),
)
