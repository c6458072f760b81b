-- ===== src/Reader/Laws.antt =====
-- The readers against the bytes that they are to read, whatever the segments.
use protohackers_go.Prelude.{
  ℕ, zero, suc, ◌-◌, ◌*◌, ◌^◌, ◌≤◌, ◌<◌, ◌≡◌, refl, ap, ◌∙◌, inl, inr, Bool, true, false, List, [],
  ◌∷◌, ◌++◌, arith, leb, Bool-cases, nat_eq, bytes_eq, Bytes, length, concat, take, drop, All,
  length-append,
}
use protohackers_go.Reader.Conn.{
  Stream, IsStream, push, R, ok, ◌>>=◌, return, read, read_full, read_more, be16, be32, be16s,
  from_be, from_be16s,
}
use protohackers_go.Reader.{read_n, read_byte, read_bytes, read_u16, read_u32, read_u16s}
use mathlib.Core.List.{append_assoc}

-- `m` reads exactly the bytes `xs` and returns `a`. `At ys s` says how the bytes `ys` stand in the
-- stream `s`.
pub record Reads {ℓ} {A : Type ℓ} (At : Bytes → Stream → Type 0) (m : R A) (xs : Bytes) (a : A)
    : Type ℓ where
  pub run : (s : Stream) (ys : Bytes) → At (xs ++ ys) s → (t : Stream) × (m s ≡ (ok a, t)) × At ys t

module _ {At : Bytes → Stream → Type 0} where
  pub Reads-return {ℓ} : {A : Type ℓ} (a : A) → Reads At (return a) [] a
  Reads-return a = record { run = λ s ys h. (s, refl, h) }

  pub Reads->>= {ℓ κ} :
      {A : Type ℓ} {B : Type κ} {m : R A} (f : A → R B) {xs ys : Bytes} {a : A} {b : B}
      → Reads At m xs a
      → Reads At (f a) ys b
      → Reads At (m >>= f) (xs ++ ys) b
  Reads->>= f {xs} {ys} h k = record {
    run = λ s zs e.
        let (t, p, q) = h.run s (ys ++ zs) (rw (append_assoc xs ys zs) at e) in
        let (u, p', q') = k.run t zs q in (u, rw p p', q');
  }

  -- The last read, and what is made of it.
  pub Reads-last {ℓ κ} :
      {A : Type ℓ} {B : Type κ} {m : R A} (g : A → B) {xs : Bytes} {a : A}
      → Reads At m xs a
      → Reads At (m >>= λ x. return (g x)) xs (g a)
  Reads-last g h = record { run = λ s zs e. let (t, p, q) = h.run s zs e in (t, rw p refl, q) }

-- What the reads of numbers promise about such a way to stand.
pub record ReadsNumbers (At : Bytes → Stream → Type 0) : Type 0 where
  pub byte : (b : ℕ) → Reads At read_byte (b ∷ []) b
  pub u16 : (v : ℕ) → v < 2 ^ 16 → Reads At read_u16 (be16 v) v
  pub u32 : (v : ℕ) → v < 2 ^ 32 → Reads At read_u32 (be32 v) v
  pub u16s :
      (vs : List ℕ) → All (λ v. v < 2 ^ 16) vs → Reads At (read_u16s (length vs)) (be16s vs) vs

-- The bytes stand in any number of segments.
abbrev pub AnySegments : Bytes → Stream → Type 0
AnySegments ys s = IsStream s × (concat s ≡ ys)

pub concat-push : (c : Bytes) (s : Stream) → concat (push c s) ≡ c ++ concat s
concat-push [] s = refl
concat-push (b ∷ bs) s = refl

pub push-IsStream : (c : Bytes) (s : Stream) → IsStream s → IsStream (push c s)
push-IsStream [] s w = w
push-IsStream (b ∷ bs) s w = ((λ e. cc), w)

take_append_le :
    (n : ℕ) (c d xs ys : Bytes)
    → c ++ d ≡ xs ++ ys
    → length xs ≡ n
    → n ≤ length c
    → (take n c ≡ xs) × (drop n c ++ d ≡ ys)
take_append_le zero c d [] ys e h k = (refl, e)
take_append_le zero c d (x ∷ xs) ys e h k = absurd (omega arith)
take_append_le (suc n) [] d xs ys e h k = absurd (omega arith)
take_append_le (suc n) (b ∷ c) d [] ys e h k = absurd (omega arith)
take_append_le (suc n) (b ∷ c) d (x ∷ xs) ys e h k =
    let (p, q) = take_append_le n c d xs ys (cc) (omega arith) (omega arith) in (cc, q)

-- A segment shorter than the bytes to read is their beginning.
split_short :
    (c d xs ys : Bytes)
    → c ++ d ≡ xs ++ ys
    → length c < length xs
    → (zs : Bytes) × (xs ≡ c ++ zs) × (d ≡ zs ++ ys)
split_short [] d xs ys e h = (xs, refl, e)
split_short (b ∷ c) d [] ys e h = absurd (omega arith)
split_short (b ∷ c) d (x ∷ xs) ys e h =
    let (zs, p, q) = split_short c d xs ys (cc) (omega arith) in (zs, cc, q)

read_more_lem :
    (started : Bool) (s : Stream) (n : ℕ) (xs ys : Bytes)
    → IsStream s
    → concat s ≡ xs ++ ys
    → length xs ≡ n
    → (t : Stream) × (read_more started s n ≡ (ok xs, t)) × (concat t ≡ ys) × IsStream t
unfolding read_more
read_more_lem started s zero [] ys w e h = (s, refl, e, w)
read_more_lem started s zero (x ∷ xs) ys w e h = absurd (omega arith)
read_more_lem started [] (suc n) xs ys w e h =
    absurd (omega (arith, ap length e, length-append xs ys))
read_more_lem started (c ∷ cs) (suc n) xs ys w e h = elim (Bool-cases (leb (suc n) (length c))) [
  | inl long ↦
      let (p, q) = take_append_le (suc n) c (concat cs) xs ys e h (ground arith) in
      (
        push (drop (suc n) c) cs,
        rw long (ground (arith, p)),
        concat-push _ cs ∙ q,
        push-IsStream _ cs w.1,
      )
  | inr short ↦
      let (zs, p, q) = split_short c (concat cs) xs ys e (ground arith) in
      let (t, g, f, v) =
        read_more_lem true cs (suc n - length c) zs ys w.1 q
          (omega (arith, ap length p, length-append c zs)) in
      (t, rw short (rw g (ground (arith, p))), f, v)
]

pub read_full-Reads : (n : ℕ) (xs : Bytes) → length xs ≡ n → Reads AnySegments (read_full n) xs xs
unfolding read_full
read_full-Reads n xs h = record {
  run = λ s ys e. let (t, p, q, w) = read_more_lem false s n xs ys e.0 e.1 h in (t, p, (w, q));
}

pub read_bytes-Reads : (n : ℕ) (xs : Bytes) → length xs ≡ n → Reads AnySegments (read_bytes n) xs xs
unfolding read_bytes
read_bytes-Reads = read_full-Reads

read_byte_run :
    (b : ℕ) (s : Stream) (ys : Bytes)
    → AnySegments (b ∷ ys) s
    → (t : Stream) × (read_byte s ≡ (ok b, t)) × AnySegments ys t
unfolding read_byte read_n read
read_byte_run b [] ys e = absurd (omega (arith, ap length e.1))
read_byte_run b ([] ∷ cs) ys e = absurd (e.0.0 refl)
read_byte_run b ((c ∷ bs) ∷ cs) ys e =
    (push bs cs, ground (arith, e.1), (push-IsStream bs cs e.0.1, concat-push bs cs ∙ cc e.1))

pub read_byte-Reads : (b : ℕ) → Reads AnySegments read_byte (b ∷ []) b
read_byte-Reads b = record { run = read_byte_run b }

pub from_be-be16 : (v : ℕ) → v < 2 ^ 16 → from_be 0 (be16 v) ≡ v
unfolding from_be be16
from_be-be16 v h = omega arith

pub from_be-be32 : (v : ℕ) → v < 2 ^ 32 → from_be 0 (be32 v) ≡ v
unfolding from_be be32
from_be-be32 v h = omega arith

-- A number of `n` bytes, read by one `io.ReadFull`.
pub Reads-number :
    {At : Bytes → Stream → Type 0} {A : Type 0} {m : R Bytes} (g : Bytes → A) {xs : Bytes} (v : A)
    → Reads At m xs xs
    → g xs ≡ v
    → Reads At (m >>= λ buf. return (g buf)) xs v
Reads-number g v h e = rw (← e) (Reads-last g h)

pub length-be16s : (vs : List ℕ) → length (be16s vs) ≡ 2 * length vs
unfolding be16s be16
length-be16s [] = refl
length-be16s (v ∷ vs) = omega (arith, length-be16s vs)

pub from_be16s-be16s :
    (vs : List ℕ) → All (λ v. v < 2 ^ 16) vs → from_be16s (length vs) (be16s vs) ≡ vs
unfolding from_be16s be16s be16
from_be16s-be16s [] h = refl
from_be16s-be16s (v ∷ vs) h = rw (from_be16s-be16s vs h.1) (ap (λ x. x ∷ vs) (from_be-be16 v h.0))

read_u16s-Reads :
    (vs : List ℕ)
    → All (λ v. v < 2 ^ 16) vs
    → Reads AnySegments (read_u16s (length vs)) (be16s vs) vs
unfolding read_u16s
read_u16s-Reads vs h =
    Reads-number _ vs (read_full-Reads (2 * length vs) (be16s vs) (length-be16s vs))
      (from_be16s-be16s vs h)

pub any_segments : ReadsNumbers AnySegments
unfolding read_u16 read_u32 be16 be32
any_segments = record {
  byte = read_byte-Reads;
  u16 = λ v h. Reads-number _ v (read_full-Reads 2 (be16 v) refl) (from_be-be16 v h);
  u32 = λ v h. Reads-number _ v (read_full-Reads 4 (be32 v) refl) (from_be-be32 v h);
  u16s = read_u16s-Reads;
}
