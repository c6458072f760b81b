-- ===== src/Reader/Shrinks.antt =====
-- The readers give no byte back.
use protohackers_go.Prelude.{
  concat, length-append, ℕ, zero, suc, ◌+◌, ◌-◌, ◌*◌, ◌≤◌, ◌<◌, ◌≡◌, refl, ap, inl, inr, Bool, true,
  false, [], ◌∷◌, arith, leb, Bool-cases, nat_eq, bytes_eq, Bytes, length, drop, length-drop,
}
use protohackers_go.Reader.Conn.{
  R, Stream, Result, ok, err, push, next, ◌>>=◌, read, read_full, read_more, prepend, bytes_in,
}
use protohackers_go.Reader.{read_byte, read_n, read_u16, read_u32, read_u16s}
use native.Mathlib.Nat.{le_refl}

-- The computation gives no byte back.
abbrev pub Shrinks {ℓ} : {A : Type ℓ} → R A → Type 0
Shrinks m = (s : Stream) → bytes_in (m s).1 ≤ bytes_in s

pub bytes_in-push : (c : Bytes) (s : Stream) → bytes_in (push c s) ≡ length c + bytes_in s
bytes_in-push [] s = omega arith
bytes_in-push (b ∷ bs) s = refl

next-le {ℓ κ} :
    {A : Type ℓ} {B : Type κ} (x : Result A × Stream) (f : A → R B)
    → ((a : A) → Shrinks (f a))
    → bytes_in (next x f).1 ≤ bytes_in x.1
next-le (ok a, s) f h = h a s
next-le (err e, s) f h = le_refl (bytes_in s)

pub >>=-Shrinks {ℓ κ} :
    {A : Type ℓ} {B : Type κ} (m : R A) (f : A → R B)
    → Shrinks m
    → ((a : A) → Shrinks (f a))
    → Shrinks (m >>= f)
>>=-Shrinks m f h k s = omega (arith, next-le (m s) f k, h s)

-- What `return` leaves.
abbrev pub done_reading : (s : Stream) → bytes_in s ≤ bytes_in s
done_reading s = le_refl (bytes_in s)

pub read-Shrinks : (n : ℕ) → Shrinks (read n)
unfolding read
read-Shrinks zero s = le_refl (bytes_in s)
read-Shrinks (suc n) [] = le_refl 0
read-Shrinks (suc n) (c ∷ cs) =
    omega (arith, bytes_in-push (drop (suc n) c) cs, length-drop (suc n) c)

prepend-bytes_in : (c : Bytes) (x : Result Bytes × Stream) → bytes_in (prepend c x).1 ≡ bytes_in x.1
prepend-bytes_in c (ok bs, s) = refl
prepend-bytes_in c (err e, s) = refl

read_more-le : (b : Bool) (s : Stream) (n : ℕ) → bytes_in (read_more b s n).1 ≤ bytes_in s
unfolding read_more
read_more-le b s zero = le_refl (bytes_in s)
read_more-le b [] (suc n) = le_refl 0
read_more-le b (c ∷ cs) (suc n) = elim (Bool-cases (leb (suc n) (length c))) [
  | inl x ↦ rw x (omega (arith, bytes_in-push (drop (suc n) c) cs, length-drop (suc n) c))
  | inr x ↦ rw x (
      omega (
        arith,
        prepend-bytes_in c (read_more true cs (suc n - length c)),
        read_more-le true cs (suc n - length c),
      ))
]

pub read_full-Shrinks : (n : ℕ) → Shrinks (read_full n)
unfolding read_full
read_full-Shrinks n s = read_more-le false s n

pub read_n-Shrinks : (n : ℕ) → Shrinks (read_n n)
unfolding read_n
read_n-Shrinks n = >>=-Shrinks (read n) _ (read-Shrinks n) (λ buf s. ground arith)

pub read_byte-Shrinks : Shrinks read_byte
unfolding read_byte
read_byte-Shrinks = >>=-Shrinks (read_n 1) _ (read_n-Shrinks 1) (λ buf. done_reading)

pub read_u16-Shrinks : Shrinks read_u16
unfolding read_u16
read_u16-Shrinks = >>=-Shrinks (read_full 2) _ (read_full-Shrinks 2) (λ buf. done_reading)

pub read_u32-Shrinks : Shrinks read_u32
unfolding read_u32
read_u32-Shrinks = >>=-Shrinks (read_full 4) _ (read_full-Shrinks 4) (λ buf. done_reading)

pub read_u16s-Shrinks : (n : ℕ) → Shrinks (read_u16s n)
unfolding read_u16s
read_u16s-Shrinks n =
    >>=-Shrinks (read_full (2 * n)) _ (read_full-Shrinks (2 * n)) (λ buf. done_reading)

-- A byte that was read is gone.
pub read_byte-lt : (s t : Stream) (b : ℕ) → read_byte s ≡ (ok b, t) → bytes_in t < bytes_in s
unfolding read_byte read_n read
read_byte-lt [] t b e = cc
read_byte-lt ([] ∷ cs) t b e = cc
read_byte-lt ((x ∷ xs) ∷ cs) t b e = omega (arith, bytes_in-push xs cs, ap (λ r. bytes_in r.1) e)

pub bytes_in-concat : (s : Stream) → bytes_in s ≡ length (concat s)
bytes_in-concat [] = refl
bytes_in-concat (c ∷ cs) = omega (arith, bytes_in-concat cs, length-append c (concat cs))
