-- ===== src/Means/Session.antt =====
-- The loop of means/server.go over the requests of a client.
use protohackers_go.Prelude.{
  ℕ, zero, suc, ◌+◌, ◌^◌, ◌≤◌, ◌<◌, ◌≡◌, refl, ap, ◌∙◌, inl, inr, Option, none, some, List, [], ◌∷◌,
  ◌++◌, arith, Bool-cases, ◌==◌, nat_eq, bytes_eq, Bytes, length, All,
}
use protohackers_go.Means.{
  StepTwoData, mean, or_zero, Round, insert, query, command, after_read, round, continue_with,
  rounds, handler,
}
use protohackers_go.Reader.Conn.{Stream, Result, ok, err, push, read, be32, bytes_in}
use protohackers_go.Reader.{read_u32, read_byte, read_n}
use protohackers_go.Reader.Laws.{AnySegments, any_segments}
use protohackers_go.Reader.Shrinks.{read_u32-Shrinks, bytes_in-push, bytes_in-concat}
use protohackers_go.Means.Mean.{Fits}

-- A request of a client.
pub data PriceRequest : Type 0 where
  insert_price : StepTwoData → PriceRequest
  query_mean : ℕ → ℕ → PriceRequest

abbrev pub IsRequest : PriceRequest → Type 0
IsRequest (insert_price d) = Fits d
IsRequest (query_mean lo hi) = (lo < 2 ^ 32) × (hi < 2 ^ 32)

-- The bytes of the requests, and the answers that they are to get.
abbrev pub bytes_of : List PriceRequest → Bytes
bytes_of [] = []
bytes_of (insert_price d ∷ rs) = b'I' ∷ (be32 d.timestamp ++ (be32 d.price ++ bytes_of rs))
bytes_of (query_mean lo hi ∷ rs) = b'Q' ∷ (be32 lo ++ (be32 hi ++ bytes_of rs))

abbrev pub answers : List StepTwoData → List PriceRequest → List Bytes
answers prices [] = []
answers prices (insert_price d ∷ rs) = answers (prices ++ d ∷ []) rs
answers prices (query_mean lo hi ∷ rs) = be32 (mean lo hi prices) ∷ answers prices rs

or_zero-le : (x : Result ℕ × Stream) → bytes_in (or_zero x).1 ≡ bytes_in x.1
or_zero-le (ok v, s) = refl
or_zero-le (err e, s) = refl

command-le :
    (prices : List StepTwoData) (r : ℕ) (s : Stream)
    → bytes_in (command prices r s).rest ≤ bytes_in s
unfolding command insert query
command-le prices r s =
    let t = (or_zero (read_u32 s)).1 in
    let u = (or_zero (read_u32 t)).1 in
    let less : bytes_in u ≤ bytes_in s = omega (
      arith,
      or_zero-le (read_u32 s),
      or_zero-le (read_u32 t),
      read_u32-Shrinks s,
      read_u32-Shrinks t,
    ) in
    elim (Bool-cases (r == b'I')) [
      | inl x ↦ rw x less
      | inr x ↦ elim (Bool-cases (r == b'Q')) [
        | inl y ↦ rw (x, y) less
        | inr y ↦ rw (x, y) (omega arith)
      ]
    ]

round-lt :
    (prices : List StepTwoData) (s : Stream) (r : Round)
    → round prices s ≡ some r
    → bytes_in r.rest < bytes_in s
unfolding round after_read read
round-lt prices [] r e = cc
round-lt prices ([] ∷ cs) r e = cc
round-lt prices ((b ∷ bs) ∷ cs) r e =
    let q : command prices b (push bs cs) ≡ r = cc in
    omega (
      arith,
      command-le prices b (push bs cs),
      bytes_in-push bs cs,
      ap (λ (r : Round). bytes_in r.rest) q,
    )

rounds-some :
    (n : ℕ) (prices : List StepTwoData) (s : Stream)
    → bytes_in s < n
    → (out : List Bytes) × (rounds n prices s ≡ some out)
unfolding rounds
rounds-some zero prices s h = absurd (omega arith)
rounds-some (suc n) prices s h = step (λ d t. rounds-some n d t) (round prices s) refl
  where
    step :
        ((d : List StepTwoData) (t : Stream)
          → bytes_in t < n
          → (out : List Bytes) × (rounds n d t ≡ some out))
        → (r : Option Round) → round prices s ≡ r
        → (out : List Bytes) × (continue_with r (λ d t. rounds n d t) ≡ some out)
    step ends none e = ([], refl)
    step ends (some r) e =
        let (out, g) = ends r.prices r.rest (omega (arith, round-lt prices s r e)) in
        (r.out ++ out, rw g refl)

-- The handler ends on every connection, whatever its bytes are and wherever it breaks off.
pub handler_ends : (s : Stream) → (out : List Bytes) × (handler s ≡ some out)
unfolding handler
handler_ends s = rounds-some (bytes_in s + 1) [] s (omega arith)

-- The two numbers of a request.
two_numbers :
    (a b : ℕ) (rest : Bytes) (s : Stream)
    → a < 2 ^ 32
    → b < 2 ^ 32
    → AnySegments (be32 a ++ (be32 b ++ rest)) s
    → (t u : Stream) × (or_zero (read_u32 s) ≡ (a, t))
      × (or_zero (read_u32 t) ≡ (b, u))
      × AnySegments rest u
two_numbers a b rest s h k w =
    let (t, e, v) = (any_segments.u32 a h).run s (be32 b ++ rest) w in
    let (u, g, z) = (any_segments.u32 b k).run t rest v in (t, u, rw e refl, rw g refl, z)

round-read_byte :
    (prices : List StepTwoData) (s t : Stream) (b : ℕ)
    → read_byte s ≡ (ok b, t)
    → round prices s ≡ some (command prices b t)
unfolding round after_read read_byte read_n read
round-read_byte prices [] t b e = cc
round-read_byte prices ([] ∷ cs) t b e = cc
round-read_byte prices ((x ∷ xs) ∷ cs) t b e = cc

first_byte_of :
    (prices : List StepTwoData) (b : ℕ) (bs : Bytes) (s : Stream)
    → AnySegments (b ∷ bs) s
    → (t : Stream) × (round prices s ≡ some (command prices b t)) × AnySegments bs t
first_byte_of prices b bs s w =
    let (t, e, v) = (any_segments.byte b).run s bs w in (t, round-read_byte prices s t b e, v)

no_byte_left : (prices : List StepTwoData) (s : Stream) → AnySegments [] s → round prices s ≡ none
unfolding round after_read read
no_byte_left prices [] w = refl
no_byte_left prices ([] ∷ cs) w = absurd (w.0.0 refl)
no_byte_left prices ((b ∷ bs) ∷ cs) w = cc w.1

insert_request :
    (prices : List StepTwoData) (d : StepTwoData) (t u v : Stream)
    → or_zero (read_u32 t) ≡ (d.timestamp, u)
    → or_zero (read_u32 u) ≡ (d.price, v)
    → command prices b'I' t ≡ record { prices = prices ++ d ∷ []; out = []; rest = v }
unfolding command insert
insert_request prices d t u v p q = rw p (rw q refl)

query_request :
    (prices : List StepTwoData) (lo hi : ℕ) (t u v : Stream)
    → or_zero (read_u32 t) ≡ (lo, u)
    → or_zero (read_u32 u) ≡ (hi, v)
    → command prices b'Q' t
      ≡ record { prices = prices; out = be32 (mean lo hi prices) ∷ []; rest = v }
unfolding command query
query_request prices lo hi t u v p q = rw p (rw q refl)

rounds-answers :
    (n : ℕ) (rs : List PriceRequest) (prices : List StepTwoData) (s : Stream)
    → length rs < n
    → All IsRequest rs
    → AnySegments (bytes_of rs) s
    → rounds n prices s ≡ some (answers prices rs)
unfolding rounds
rounds-answers zero rs prices s h f w = absurd (omega arith)
rounds-answers (suc n) [] prices s h f w = rw (no_byte_left prices s w) refl
rounds-answers (suc n) (insert_price d ∷ rs) prices s h f w =
    let (t, e, v) = first_byte_of prices b'I' _ s w in
    let (u, z, p, q, y) = two_numbers d.timestamp d.price (bytes_of rs) t f.0.0 f.0.1 v in
    rw
      (
        e ∙ ap some (insert_request prices d t u z p q),
        rounds-answers n rs (prices ++ d ∷ []) z (omega arith) f.1 y,
      )
      refl
rounds-answers (suc n) (query_mean lo hi ∷ rs) prices s h f w =
    let (t, e, v) = first_byte_of prices b'Q' _ s w in
    let (u, z, p, q, y) = two_numbers lo hi (bytes_of rs) t f.0.0 f.0.1 v in
    rw
      (
        e ∙ ap some (query_request prices lo hi t u z p q),
        rounds-answers n rs prices z (omega arith) f.1 y,
      )
      refl

length-bytes_of : (rs : List PriceRequest) → length rs ≤ length (bytes_of rs)
unfolding be32
length-bytes_of [] = omega arith
length-bytes_of (insert_price d ∷ rs) = omega (arith, length-bytes_of rs)
length-bytes_of (query_mean lo hi ∷ rs) = omega (arith, length-bytes_of rs)

-- In whatever segments the requests of a client arrive, each query is answered with the mean over the
-- prices that the requests before it inserted, in the order of the queries, and nothing else is
-- written.
pub handler-answers :
    (rs : List PriceRequest) (s : Stream)
    → All IsRequest rs
    → AnySegments (bytes_of rs) s
    → handler s ≡ some (answers [] rs)
unfolding handler
handler-answers rs s f w =
    rounds-answers (bytes_in s + 1) rs [] s
      (omega (arith, length-bytes_of rs, bytes_in-concat s, ap length w.1)) f w
