-- ===== src/Traffic/Codec/Fragments.antt =====
-- Strings in the packets of traffic/packets_gen.go that are cut by a segment or too long.
use protohackers_go.Prelude.{
  ℕ, ◌%◌, ◌≡◌, refl, ◌≢◌, [], ◌∷◌, ◌++◌, arith, nat_eq, bytes_eq, Bytes, length, take, drop,
  length-append, length-take, take-append-drop, length_pos,
}
use protohackers_go.Reader.Conn.{Stream, push, ok, err, unexpected_eof, be32}
use protohackers_go.Reader.{read_n}
use protohackers_go.Reader.Segments.{read_n-fragmented, read_n_run, read_byte_run}
use protohackers_go.Traffic.Codec.Marshal.{marshal_string}
use protohackers_go.Traffic.Codec.Unmarshal.{unmarshal_string, unmarshal_plate}
use mathlib.Core.List.{append_assoc}

-- A plate whose bytes arrive in two segments, cut anywhere behind its first character and before its
-- last, is not read: `Unmarshal` fails and leaves the second segment to be read as something else.
pub plate_cut :
    (front back : Bytes) (timestamp : ℕ) (cs : Stream)
    → front ≢ []
    → back ≢ []
    → unmarshal_plate ((length (front ++ back) ∷ front) ∷ (back ++ be32 timestamp) ∷ cs)
      ≡ (err unexpected_eof, (back ++ be32 timestamp) ∷ cs)
unfolding unmarshal_plate unmarshal_string
plate_cut [] back timestamp cs f b = absurd (f refl)
plate_cut (x ∷ xs) back timestamp cs f b =
    let front : Bytes = x ∷ xs in
    let rest : Stream = (back ++ be32 timestamp) ∷ cs in
    let cut : read_n (length (front ++ back)) (front ∷ rest) ≡ (err unexpected_eof, rest) =
      read_n-fragmented (length (front ++ back)) front rest f
        (omega (arith, length-append front back, length_pos back b)) in
    rw (read_byte_run (length (front ++ back)) front rest, cut) refl

-- A string of any length is marshalled with the length of its first `length % 256` bytes, and these
-- are what `Unmarshal` reads; the others are left in front of what follows.
pub long_string :
    (s buff rest : Bytes) (cs : Stream)
    → (marshal_string s buff ≡ ok (buff ++ (length s % 256 ∷ [] ++ s)))
      × (unmarshal_string (push ((length s % 256 ∷ [] ++ s) ++ rest) cs)
          ≡ (ok (take (length s % 256) s), push (drop (length s % 256) s ++ rest) cs))
unfolding marshal_string unmarshal_string
long_string s buff rest cs =
    let n = length s % 256 in
    let whole : s ++ rest ≡ take n s ++ (drop n s ++ rest) =
      rw (← append_assoc (take n s) (drop n s) rest, take-append-drop n s) refl in
    let taken : length (take n s) ≡ n = omega (arith, length-take n s) in
    let got : read_n n (push (s ++ rest) cs) ≡ (ok (take n s), push (drop n s ++ rest) cs) =
      rw whole (rw taken at (read_n_run (take n s) (drop n s ++ rest) cs)) in
    (ground (arith, append_assoc buff (n ∷ []) s), rw (read_byte_run n (s ++ rest) cs, got) refl)
