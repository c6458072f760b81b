-- ===== src/Reader/Segments.antt =====
-- The readers on bytes that stand in one segment. The single `Read` of `read_n` needs that.
use protohackers_go.Prelude.{
  ℕ, zero, suc, ◌*◌, ◌<◌, ◌≡◌, refl, ◌≢◌, [], ◌∷◌, ◌++◌, arith, nat_eq, bytes_eq, Bytes, length,
  length-append, take-append, drop-append, take_all, drop_all,
}
use protohackers_go.Reader.Conn.{
  Stream, push, ok, err, unexpected_eof, read, read_full, read_more, be16, be32, be16s,
}
use protohackers_go.Reader.{read_n, read_byte, read_u16, read_u32, read_u16s}
use protohackers_go.Reader.Laws.{
  Reads, ReadsNumbers, length-be16s, from_be16s-be16s, Reads-number, from_be-be16, from_be-be32,
}

-- The bytes stand at the front of a segment, and `cs` are the segments behind it.
abbrev pub OneSegment : Stream → Bytes → Stream → Type 0
OneSegment cs ys s = s ≡ push ys cs

pub read_n_run :
    (xs ys : Bytes) (cs : Stream) → read_n (length xs) (push (xs ++ ys) cs) ≡ (ok xs, push ys cs)
unfolding read_n read
read_n_run [] ys cs = refl
read_n_run (x ∷ xs) ys cs = rw (take-append xs ys, drop-append xs ys) (ground arith)

pub read_byte_run :
    (b : ℕ) (bs : Bytes) (cs : Stream) → read_byte ((b ∷ bs) ∷ cs) ≡ (ok b, push bs cs)
unfolding read_byte read_n read
read_byte_run b bs cs = refl

read_full_run :
    (xs ys : Bytes) (cs : Stream) → read_full (length xs) (push (xs ++ ys) cs) ≡ (ok xs, push ys cs)
unfolding read_full read_more
read_full_run [] ys cs = refl
read_full_run (x ∷ xs) ys cs =
    rw (take-append xs ys, drop-append xs ys) (ground (arith, length-append xs ys))

module _ {cs : Stream} where
  pub read_n-Reads : (n : ℕ) (xs : Bytes) → length xs ≡ n → Reads (OneSegment cs) (read_n n) xs xs
  read_n-Reads n xs h = record {
    run = λ s ys e. (push ys cs, rw (e, ← h) (read_n_run xs ys cs), refl);
  }

  pub read_full-Reads_here :
      (n : ℕ) (xs : Bytes) → length xs ≡ n → Reads (OneSegment cs) (read_full n) xs xs
  read_full-Reads_here n xs h = record {
    run = λ s ys e. (push ys cs, rw (e, ← h) (read_full_run xs ys cs), refl);
  }

  pub one_segment : ReadsNumbers (OneSegment cs)
  unfolding read_byte read_u16 read_u32 read_u16s be16 be32
  one_segment = record {
    byte = λ b. Reads-number _ b (read_n-Reads 1 (b ∷ []) refl) refl;
    u16 = λ v h. Reads-number _ v (read_full-Reads_here 2 (be16 v) refl) (from_be-be16 v h);
    u32 = λ v h. Reads-number _ v (read_full-Reads_here 4 (be32 v) refl) (from_be-be32 v h);
    u16s = λ vs h.
        Reads-number _ vs (read_full-Reads_here (2 * length vs) (be16s vs) (length-be16s vs))
          (from_be16s-be16s vs h);
  }

-- `ReadN` does not wait for the next segment: where a segment ends before the `n`th byte it fails,
-- whatever follows, and the bytes that it read are lost.
pub read_n-fragmented :
    (n : ℕ) (c : Bytes) (cs : Stream)
    → c ≢ []
    → length c < n
    → read_n n (c ∷ cs) ≡ (err unexpected_eof, cs)
unfolding read_n read
read_n-fragmented zero c cs h k = absurd (omega arith)
read_n-fragmented (suc n) c cs h k =
    rw (take_all (suc n) c (omega arith), drop_all (suc n) c (omega arith)) (ground arith)
