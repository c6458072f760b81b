-- ===== src/Genpackets/Steps.antt =====
-- A field that a statement of genpackets/genpackets.go reads, and the same field read by a method of
-- traffic/packets_gen.go.
use protohackers_go.Prelude.{ℕ, ◌≡◌, refl, some, List, [], ◌∷◌, nat_eq, bytes_eq, Bytes}
use protohackers_go.Reader.Conn.{
  Stream, R, return, read_full, from_be, Result, ok, err, next, ◌>>=◌,
}
use protohackers_go.Traffic.Codec.Unmarshal.{unmarshal_string}
use protohackers_go.Reader.{read_byte, read_u16, read_u32, read_u16s}
use protohackers_go.Genpackets.Template.{ReadStmt, read_string, read_slice, read_binary}
use protohackers_go.Genpackets.Run.{
  uint16, uint32, Value, text, number, numbers, Values, get_field, set_field, Ended, finished,
  failed, run_unmarshal, exec_read, then_read, assign,
}

-- The end of a read, with the fields of what was read.
abbrev pub ended_as {ℓ} : {B : Type ℓ} → (B → Values) → Result B × Stream → Ended Values × Stream
ended_as h (ok b, s) = (finished (h b), s)
ended_as h (err e, s) = (failed e, s)

pub ended_as-next {ℓ κ} :
    {A : Type ℓ} {B : Type κ} (h : B → Values) (c : A → B) (x : Result A × Stream)
    → ended_as h (next x (λ a. return (c a))) ≡ ended_as (λ a. h (c a)) x
ended_as-next h c (ok a, s) = refl
ended_as-next h c (err e, s) = refl

-- One field read by a statement and by the method: `k` is the rest of the method.
module _ {B : Type 0} (h : B → Values) (f : Bytes) (p : Values) (rs : List ReadStmt) where
  pub u16_step :
      (z : ℕ) (k : ℕ → R B) (s : Stream)
      → get_field f p ≡ some (number uint16 z)
      → ((v : ℕ) (t : Stream)
          → run_unmarshal rs (set_field f (number uint16 v) p) t ≡ ended_as h (k v t))
      → run_unmarshal (read_binary f ∷ rs) p s ≡ ended_as h (next (read_u16 s) k)
  unfolding run_unmarshal exec_read read_u16
  u16_step z k s g e = rw g (by_result (read_full 2 s))
    where
      by_result :
          (x : Result Bytes × Stream)
          → then_read
              (assign f p (next x (λ b. return (number uint16 (from_be 0 b)))))
              (λ q t. run_unmarshal rs q t)
            ≡ ended_as h (next (next x (λ b. return (from_be 0 b))) k)
      by_result (ok b, t) = e (from_be 0 b) t
      by_result (err r, t) = refl

  pub u32_step :
      (z : ℕ) (k : ℕ → R B) (s : Stream)
      → get_field f p ≡ some (number uint32 z)
      → ((v : ℕ) (t : Stream)
          → run_unmarshal rs (set_field f (number uint32 v) p) t ≡ ended_as h (k v t))
      → run_unmarshal (read_binary f ∷ rs) p s ≡ ended_as h (next (read_u32 s) k)
  unfolding run_unmarshal exec_read read_u32
  u32_step z k s g e = rw g (by_result (read_full 4 s))
    where
      by_result :
          (x : Result Bytes × Stream)
          → then_read
              (assign f p (next x (λ b. return (number uint32 (from_be 0 b)))))
              (λ q t. run_unmarshal rs q t)
            ≡ ended_as h (next (next x (λ b. return (from_be 0 b))) k)
      by_result (ok b, t) = e (from_be 0 b) t
      by_result (err r, t) = refl

  value_step :
      {A : Type 0} (inj : A → Value) (k : A → R B) (x : Result A × Stream)
      → ((a : A) (t : Stream) → run_unmarshal rs (set_field f (inj a) p) t ≡ ended_as h (k a t))
      → then_read (assign f p (next x (λ a. return (inj a)))) (λ q t. run_unmarshal rs q t)
        ≡ ended_as h (next x k)
  value_step inj k (ok a, t) e = e a t
  value_step inj k (err r, t) e = refl

  pub string_step :
      (z : Bytes) (k : Bytes → R B) (s : Stream)
      → get_field f p ≡ some (text z)
      → ((v : Bytes) (t : Stream)
          → run_unmarshal rs (set_field f (text v) p) t ≡ ended_as h (k v t))
      → run_unmarshal (read_string f ∷ rs) p s ≡ ended_as h (next (unmarshal_string s) k)
  unfolding run_unmarshal exec_read
  string_step z k s g e = rw g (value_step text k (unmarshal_string s) e)

  pub slice_step :
      (z : List ℕ) (k : List ℕ → R B) (s : Stream)
      → get_field f p ≡ some (numbers uint16 z)
      → ((vs : List ℕ) (t : Stream)
          → run_unmarshal rs (set_field f (numbers uint16 vs) p) t ≡ ended_as h (k vs t))
      → run_unmarshal (read_slice f ∷ rs) p s
        ≡ ended_as h (next (read_byte s) (λ n. read_u16s n >>= k))
  unfolding run_unmarshal exec_read
  slice_step z k s g e = rw g (by_result (read_byte s))
    where
      by_result :
          (x : Result ℕ × Stream)
          → then_read
              (assign f p (next x (λ n. read_u16s n >>= λ vs. return (numbers uint16 vs))))
              (λ q t. run_unmarshal rs q t)
            ≡ ended_as h (next x (λ n. read_u16s n >>= k))
      by_result (ok n, t) = value_step (numbers uint16) k (read_u16s n t) e
      by_result (err r, t) = refl

pub run_end : (p : Values) (s : Stream) → run_unmarshal [] p s ≡ (finished p, s)
unfolding run_unmarshal
run_end p s = refl
