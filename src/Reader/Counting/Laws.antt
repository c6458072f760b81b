-- ===== src/Reader/Counting/Laws.antt =====
-- The counting reader reads what the plain one does, and its count is the number of bytes read.
use protohackers_go.Prelude.{
  ℕ, zero, suc, ◌+◌, ◌-◌, ◌%◌, ◌^◌, ◌≤◌, ◌<◌, ◌≡◌, refl, ap, inl, inr, Bool, true, false, [], ◌∷◌,
  ◌++◌, arith, leb, Bool-cases, ◌==◌, nat_eq, bytes_eq, Bytes, length, drop, length-take,
  length-drop,
}
use protohackers_go.Reader.Conn.{
  Stream, R, Result, ok, err, Error, unexpected_eof, short, from_be, push, next, read, read_full,
  read_more, bytes_in,
}
use protohackers_go.Reader.{read_n}
use mathlib.Core.Path.{subst}
use protohackers_go.Reader.Conn
use protohackers_go.Reader.Counting
use protohackers_go.Reader.Shrinks.{bytes_in-push}
use protohackers_go.Reader.Counting.{
  CountingReader, CountedString, C, follow, readed, read_counted, read_more_counted,
  read_full_counted, read_u16_counted, read_u32_counted, read_l16_counted, read_l32_counted,
  read_n_counted, skip_n_counted, read_reverse_bytes_counted, string_from_counted,
  read_string_counted,
}

-- The same value, or an error on both sides.
abbrev pub Agree : {A : Type 0} → Result A → Result A → Type 0
Agree (ok a) (ok b) = a ≡ b
Agree (err e) (err f) = Unit
Agree _ _ = ⊥

-- What a counting read leaves, for a plain read of `s` that leaves `t`, from the count `k`.
pub record Counted (s t : Stream) (k : ℕ) (cr : CountingReader) : Type 0 where
  pub rest : cr.reader ≡ t
  pub less : bytes_in t ≤ bytes_in s
  pub count : cr.bytes_read ≡ (k + (bytes_in s - bytes_in t)) % 2 ^ 64

abbrev pub Same : {A : Type 0} → Stream → ℕ → Result A × CountingReader → Result A × Stream → Type 0
Same s k x y = Agree x.0 y.0 × Counted s y.1 k x.1

abbrev pub Counts : {A : Type 0} → C A → R A → Type 0
Counts c m =
    (s : Stream) (k : ℕ) → k < 2 ^ 64 → Same s k (c (record { reader = s; bytes_read = k })) (m s)

pub read-Counts : (n : ℕ) → Counts (read_counted n) (read n)
unfolding read_counted read
read-Counts zero s k h = (refl, record { rest = refl; less = omega arith; count = omega arith })
read-Counts (suc n) [] k h = (tt, record { rest = refl; less = omega arith; count = omega arith })
read-Counts (suc n) (c ∷ cs) k h = (
  refl,
  record {
    rest = refl;
    less = omega (arith, bytes_in-push (drop (suc n) c) cs, length-drop (suc n) c);
    count =
        omega
          (arith, bytes_in-push (drop (suc n) c) cs, length-drop (suc n) c, length-take (suc n) c);
  },
)

-- A read of `s` that continues one that left `s` from `r`.
Counted-after :
    (r s t : Stream) (k : ℕ) (mid cr : CountingReader)
    → Counted r s k mid
    → Counted s t mid.bytes_read cr
    → Counted r t k cr
Counted-after r s t k mid cr a b = record {
  rest = b.rest;
  less = omega (arith, a.less, b.less);
  count = omega (arith, a.less, b.less, a.count, b.count);
}

prepend-Same :
    (c : Bytes) (s : Stream) (k : ℕ) (x : Result Bytes × CountingReader) (y : Result Bytes × Stream)
    → Same s k x y
    → Same s k (Counting.prepend c x) (Conn.prepend c y)
prepend-Same c s k (ok a, cr) (ok b, t) (e, p) = (ap (λ z. c ++ z) e, p)
prepend-Same c s k (ok a, cr) (err f, t) (e, p) = absurd e
prepend-Same c s k (err e, cr) (ok b, t) (g, p) = absurd g
prepend-Same c s k (err e, cr) (err f, t) (g, p) = (tt, p)

pub Same-from :
    {A : Type 0} (r s : Stream) (k : ℕ) (mid : CountingReader) (x : Result A × CountingReader)
    (y : Result A × Stream)
    → Counted r s k mid
    → Same s mid.bytes_read x y
    → Same r k x y
Same-from r s k mid x y a (e, b) = (e, Counted-after r s y.1 k mid x.1 a b)

-- The first `n` bytes of a segment.
Counted-front :
    (n : ℕ) (c : Bytes) (cs : Stream) (k : ℕ)
    → n ≤ length c
    → Counted
        (c ∷ cs)
        (push (drop n c) cs)
        k
        (record { reader = push (drop n c) cs; bytes_read = (k + n) % 2 ^ 64 })
Counted-front n c cs k h =
    let left = bytes_in-push (drop n c) cs in
    let dropped = length-drop n c in
    record {
      rest = refl;
      less = omega (arith, left, dropped);
      count = omega (arith, left, dropped);
    }

Counted-segment :
    (c : Bytes) (cs : Stream) (k : ℕ)
    → Counted (c ∷ cs) cs k (record { reader = cs; bytes_read = (k + length c) % 2 ^ 64 })
Counted-segment c cs k = record { rest = refl; less = omega arith; count = omega arith }

read_more-Same :
    (b : Bool) (s : Stream) (n k : ℕ)
    → k < 2 ^ 64
    → Same s k (read_more_counted b s n k) (read_more b s n)
unfolding read_more_counted read_more
read_more-Same b s zero k h =
    (refl, record { rest = refl; less = omega arith; count = omega arith })
read_more-Same b [] (suc n) k h =
    (tt, record { rest = refl; less = omega arith; count = omega arith })
read_more-Same b (c ∷ cs) (suc n) k h = elim (Bool-cases (leb (suc n) (length c))) [
  | inl x ↦ rw x (refl, Counted-front (suc n) c cs k (ground arith))
  | inr x ↦
      let k' = (k + length c) % 2 ^ 64 in
      let m = suc n - length c in
      let inner = read_more-Same true cs m k' (omega arith) in
      rw x (
        prepend-Same c (c ∷ cs) k (read_more_counted true cs m k') (read_more true cs m) (
          Same-from (c ∷ cs) cs k (record { reader = cs; bytes_read = k' })
            (read_more_counted true cs m k') (read_more true cs m) (Counted-segment c cs k) inner))
]

pub read_full-Counts : (n : ℕ) → Counts (read_full_counted n) (read_full n)
unfolding read_full_counted read_full
read_full-Counts n s k h = read_more-Same false s n k h

pub Counted-small :
    (s t : Stream) (k : ℕ) (cr : CountingReader) → Counted s t k cr → cr.bytes_read < 2 ^ 64
Counted-small s t k cr p = omega (arith, p.count)

-- The two go on alike from where the reads before left them.
continue-Same :
    {B : Type 0} (s t : Stream) (k : ℕ) (cr : CountingReader) (c : C B) (m : R B)
    → Counts c m
    → Counted s t k cr
    → Same s k (c cr) (m t)
continue-Same s t k cr c m h p =
    subst (λ u. Same s k (c cr) (m u)) p.rest
      (Same-from s cr.reader k cr (c cr) (m cr.reader) (rw (← p.rest) at p)
        (h cr.reader cr.bytes_read (Counted-small s t k cr p)))

follow-Same :
    {A B : Type 0} (s : Stream) (k : ℕ) (f : A → C B) (g : A → R B) (x : Result A × CountingReader)
    (y : Result A × Stream)
    → ((a : A) → Counts (f a) (g a))
    → Same s k x y
    → Same s k (follow x f) (next y g)
follow-Same s k f g (ok a, cr) (ok b, t) h (e, p) =
    subst (λ b. Same s k (f a cr) (g b t)) e (continue-Same s t k cr (f a) (g a) (h a) p)
follow-Same s k f g (ok a, cr) (err e, t) h (q, p) = absurd q
follow-Same s k f g (err e, cr) (ok b, t) h (q, p) = absurd q
follow-Same s k f g (err e, cr) (err d, t) h (q, p) = (tt, p)

pub same_result : {A : Type 0} (x y : Result A) → Agree x y → Counts (λ cr. (x, cr)) (λ s. (y, s))
same_result x y a s k h = (a, record { rest = refl; less = omega arith; count = omega arith })

-- A number made of what `io.ReadFull` brings.
pub number-Counts :
    (n : ℕ) (g : Bytes → ℕ)
    → Counts
        (λ cr. follow (read_full_counted n cr) (λ buf cr. (ok (g buf), cr)))
        (λ s. next (read_full n s) (λ buf s. (ok (g buf), s)))
number-Counts n g s k h =
    follow-Same s k _ _ (read_full_counted n (record { reader = s; bytes_read = k }))
      (read_full n s) (λ buf. same_result (ok (g buf)) (ok (g buf)) refl) (read_full-Counts n s k h)

pub read_n-Counts : (n : ℕ) → Counts (read_n_counted n) (read_n n)
unfolding read_n_counted read_n
read_n-Counts n s k h =
    follow-Same s k _ _ (read_counted n (record { reader = s; bytes_read = k })) (read n s)
      (λ buf s k h. elim (Bool-cases (length buf == n)) [
        | inl x ↦ rw x (same_result (ok buf) (ok buf) refl s k h)
        | inr x ↦ rw x (same_result {A = Bytes} (err short) (err unexpected_eof) tt s k h)
      ])
      (read-Counts n s k h)
