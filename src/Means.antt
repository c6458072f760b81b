-- ===== src/Means.antt =====
-- means/server.go: the prices of a client and the mean of a range of them.
pub mod Bits
pub mod Mean
pub mod Session
mod Tests
use protohackers_go.Prelude.{
  ℕ, zero, suc, ◌+◌, ◌-◌, ◌*◌, ◌/◌, ◌%◌, ◌^◌, ◌≤◌, ◌<◌, ◌≡◌, refl, sym, ap, ◌∙◌, ◌≢◌, ◌↔◌, ◌⊎◌, inl,
  inr, Bool, true, false, not, ◌&&◌, ◌||◌, Option, none, some, List, [], ◌∷◌, ◌++◌, arith, ltb, leb,
  if◌then◌else◌, Bool-cases, Option-cases, Eq, ◌==◌, nat_eq, bytes_eq, Bytes, bytes_beq,
  bytes_beq_iff, ==_refl, ==→eq, ==_sym_false, codes, is_some, is_alphanumeric, all_of, digits,
  decimal, join, trim_left, trim_right, lines_from, read_lines, length, set, concat, get_elem?,
  take, drop, replicate, All, append_nil, length-append, length-take, length-drop, length-replicate,
  take-append, drop-append, take-append-drop, take_all, drop_all, split_at, List-cases,
  index_of-some, length_pos, All-append, All-mono, All-zip, Any, erase_idx, erase_idx-All,
  length-erase_idx, delete_func, delete_func-All, contains, index_of, find_first, find_first-some,
  find_first-none, All-get_elem?, contains-append, index_of-none, index_of-lt, Distinct,
  Distinct-append, contains-erase_idx_ne, contains-erase_idx_le, erase_idx-Distinct,
  contains-erase_idx_self, update, Outcome, Outcome-cases, done, panic, ◌>>=◌, Returns, >>=-Returns,
}
use protohackers_go.Reader.Conn.{Stream, Result, ok, err, read, be32, bytes_in}
use protohackers_go.Reader.{read_u32}
use mathlib.Core.List.{map}

-- The fields of type `int32`, as their 32 bits.
pub record StepTwoData : Type 0 where
  pub timestamp : ℕ
  pub price : ℕ

-- `x <= y` of two `int32`.
abbrev pub int32_le : ℕ → ℕ → Bool
int32_le x y = leb ((x + 2 ^ 31) % 2 ^ 32) ((y + 2 ^ 31) % 2 ^ 32)

-- `int64(x)` of an `int32`.
abbrev pub widen : ℕ → ℕ
widen x = if ltb x (2 ^ 31) then x else x + (2 ^ 64 - 2 ^ 32)

abbrev pub is_in : ℕ → ℕ → StepTwoData → Bool
is_in min_time max_time it = int32_le min_time it.timestamp && int32_le it.timestamp max_time

-- The loop over the prices, on the 64 bits of `sum` and the 32 of `count`.
abbrev pub add_price : ℕ → ℕ → StepTwoData → ℕ × ℕ → ℕ × ℕ
add_price min_time max_time it (sum, count) =
    if is_in min_time max_time it
    then ((sum + widen it.price) % 2 ^ 64, (count + 1) % 2 ^ 32)
    else (sum, count)

unfoldable pub totals : ℕ → ℕ → List StepTwoData → ℕ × ℕ → ℕ × ℕ
totals min_time max_time [] acc = acc
totals min_time max_time (it ∷ prices) acc =
    totals min_time max_time prices (add_price min_time max_time it acc)

-- `sum / int64(count)` of a positive count.
abbrev pub divide : ℕ → ℕ → ℕ
divide sum count =
    if ltb sum (2 ^ 63) then sum / count else (2 ^ 64 - (2 ^ 64 - sum) / count) % 2 ^ 64

abbrev pub average : ℕ × ℕ → ℕ
average (sum, count) = if ltb 0 count && ltb count (2 ^ 31) then divide sum count % 2 ^ 32 else 0

-- The bits of `avg`.
unfoldable pub mean : ℕ → ℕ → List StepTwoData → ℕ
unfolding totals
mean min_time max_time prices = average (totals min_time max_time prices (0, 0))

-- `reader.ReadB` into a field that is 0. The handler does not look at the error.
abbrev pub or_zero : Result ℕ × Stream → ℕ × Stream
or_zero (ok v, s) = (v, s)
or_zero (err e, s) = (0, s)

-- What a round leaves: the prices, what it wrote, and the rest of the connection.
pub record Round : Type 0 where
  pub prices : List StepTwoData
  pub out : List Bytes
  pub rest : Stream

unfoldable pub insert : List StepTwoData → Stream → Round
unfolding read_u32
insert prices s =
    let (timestamp, t) = or_zero (read_u32 s) in
    let (price, u) = or_zero (read_u32 t) in
    record {
      prices = prices ++ record { timestamp = timestamp; price = price } ∷ [];
      out = [];
      rest = u;
    }

unfoldable pub query : List StepTwoData → Stream → Round
unfolding read_u32 mean be32
query prices s =
    let (min_time, t) = or_zero (read_u32 s) in
    let (max_time, u) = or_zero (read_u32 t) in
    record { prices = prices; out = be32 (mean min_time max_time prices) ∷ []; rest = u }

-- The `switch` over the first byte.
unfoldable pub command : List StepTwoData → ℕ → Stream → Round
unfolding insert query
command prices r s =
    if r == b'I'
    then insert prices s
    else if r == b'Q'
    then query prices s
    else record { prices = prices; out = []; rest = s }

-- A round, unless the byte for it is not there.
unfoldable pub after_read : List StepTwoData → Result Bytes × Stream → Option Round
unfolding command
after_read prices (err e, s) = none
after_read prices (ok [], s) = none
after_read prices (ok (r ∷ rs), s) = some (command prices r s)

unfoldable pub round : List StepTwoData → Stream → Option Round
unfolding read after_read
round prices s = after_read prices (read 1 s)

abbrev pub and_then : List Bytes → Option (List Bytes) → Option (List Bytes)
and_then out none = none
and_then out (some rest) = some (out ++ rest)

abbrev pub continue_with :
    Option Round → (List StepTwoData → Stream → Option (List Bytes)) → Option (List Bytes)
continue_with none go_on = some []
continue_with (some r) go_on = and_then r.out (go_on r.prices r.rest)

-- The loop. `none` is the end of the fuel.
unfoldable pub rounds : ℕ → List StepTwoData → Stream → Option (List Bytes)
unfolding round
rounds zero prices s = none
rounds (suc n) prices s = continue_with (round prices s) (λ d t. rounds n d t)

-- `Handler`: what it writes, one entry for each mean.
unfoldable pub handler : Stream → Option (List Bytes)
unfolding rounds
handler s = rounds (bytes_in s + 1) [] s
