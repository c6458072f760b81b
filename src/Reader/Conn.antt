-- ===== src/Reader/Conn.antt =====
-- What the readers use of Go's library: `Read` of a connection, `io.ReadFull`, and
-- `encoding/binary` on unsigned numbers.
use protohackers_go.Prelude.{
  ℕ, zero, suc, ◌+◌, ◌-◌, ◌*◌, ◌/◌, ◌%◌, ◌^◌, ◌≢◌, Bool, true, false, List, [], ◌∷◌, ◌++◌, leb,
  if◌then◌else◌, nat_eq, bytes_eq, Bytes, length, take, drop, All,
}

-- `short` is an error that names how many bytes came instead of how many were required, and
-- `write_failed` the error of a `Write`.
pub data Error : Type 0 where
  eof unexpected_eof short write_failed : Error

pub data Result {ℓ} (A : Type ℓ) : Type ℓ where
  ok : A → Result A
  err : Error → Result A

-- The segments in which the bytes of a connection arrive; after the last one it is closed.
abbrev pub Stream : Type 0
Stream = List Bytes

-- No segment is empty.
abbrev pub IsStream : Stream → Type 0
IsStream = All (λ (c : Bytes). c ≢ [])

-- What is left of a segment goes back in front.
abbrev pub push : Bytes → Stream → Stream
push [] s = s
push (b ∷ bs) s = (b ∷ bs) ∷ s

-- How many bytes are still to come.
abbrev pub bytes_in : Stream → ℕ
bytes_in [] = 0
bytes_in (c ∷ cs) = length c + bytes_in cs

-- A computation that reads.
abbrev pub R {ℓ} : Type ℓ → Type ℓ
R A = Stream → Result A × Stream

abbrev pub return {ℓ} : {A : Type ℓ} → A → R A
return a s = (ok a, s)

abbrev pub fail {ℓ} : {A : Type ℓ} → Error → R A
fail e s = (err e, s)

abbrev pub next {ℓ κ} :
    {A : Type ℓ} {B : Type κ} → Result A × Stream → (A → R B) → Result B × Stream
next (ok a, s) f = f a s
next (err e, s) f = (err e, s)

infixl 5 ◌>>=◌
abbrev pub ◌>>=◌ {ℓ κ} : {A : Type ℓ} {B : Type κ} → R A → (A → R B) → R B
◌>>=◌ m f s = next (m s) f

-- `r.Read(buf)` with `len(buf) == n`: at most what one segment holds.
unfoldable pub read : ℕ → R Bytes
read zero s = (ok [], s)
read (suc n) [] = (err eof, [])
read (suc n) (c ∷ cs) = (ok (take (suc n) c), push (drop (suc n) c) cs)

abbrev pub prepend : Bytes → Result Bytes × Stream → Result Bytes × Stream
prepend c (ok bs, s) = (ok (c ++ bs), s)
prepend c (err e, s) = (err e, s)

-- `io.ReadFull`: reads until there are `n` bytes. The end of the connection is `eof` before the
-- first byte and `unexpected_eof` after it.
unfoldable pub read_more : Bool → Stream → ℕ → Result Bytes × Stream
read_more started s zero = (ok [], s)
read_more started [] (suc n) = (err (if started then unexpected_eof else eof), [])
read_more started (c ∷ cs) (suc n) =
    let more = prepend c (read_more true cs (suc n - length c)) in
    if leb (suc n) (length c) then (ok (take (suc n) c), push (drop (suc n) c) cs) else more

unfoldable pub read_full : ℕ → R Bytes
unfolding read_more
read_full n s = read_more false s n

-- The big-endian bytes of a number, as `binary.Write` writes them.
unfoldable pub be16 : ℕ → Bytes
be16 v = (v / 256 % 256) ∷ (v % 256) ∷ []

unfoldable pub be32 : ℕ → Bytes
be32 v = (v / 2 ^ 24 % 256) ∷ (v / 2 ^ 16 % 256) ∷ (v / 256 % 256) ∷ (v % 256) ∷ []

unfoldable pub be16s : List ℕ → Bytes
unfolding be16
be16s [] = []
be16s (v ∷ vs) = be16 v ++ be16s vs

-- A big-endian number of any width.
unfoldable pub from_be : ℕ → Bytes → ℕ
from_be acc [] = acc
from_be acc (b ∷ bs) = from_be (acc * 256 + b) bs

-- `n` numbers of two bytes each.
unfoldable pub from_be16s : ℕ → Bytes → List ℕ
unfolding from_be
from_be16s zero bs = []
from_be16s (suc n) bs = from_be 0 (take 2 bs) ∷ from_be16s n (drop 2 bs)
