-- ===== src/Primetime.antt =====
-- `isPrime` of primetime/server.go.
pub mod Trial
pub mod Handler
mod Tests
use protohackers_go.Prelude.{
  ℕ, zero, suc, ◌+◌, ◌-◌, ◌*◌, ◌/◌, ◌%◌, ◌^◌, ◌≤◌, ◌<◌, ◌≡◌, refl, sym, ap, ◌∙◌, ◌≢◌, ◌↔◌, ◌⊎◌, inl,
  inr, Bool, true, false, not, ◌&&◌, ◌||◌, Option, none, some, List, [], ◌∷◌, ◌++◌, arith, ltb, leb,
  if◌then◌else◌, Bool-cases, Option-cases, Eq, ◌==◌, nat_eq, bytes_eq, Bytes, bytes_beq,
  bytes_beq_iff, ==_refl, ==→eq, ==_sym_false, length, set, concat, get_elem?, take, drop,
  replicate, All, length-append, length-take, length-drop, length-replicate, take-append,
  drop-append, take-append-drop, take_all, drop_all, split_at, List-cases, index_of-some,
  length_pos, All-append, All-mono, All-zip, Any, erase_idx, erase_idx-All, length-erase_idx,
  delete_func, delete_func-All, contains, index_of, find_first, find_first-some, find_first-none,
  All-get_elem?, contains-append, index_of-none, index_of-lt, Distinct, Distinct-append,
  contains-erase_idx_ne, contains-erase_idx_le, erase_idx-Distinct, contains-erase_idx_self, update,
  Outcome, Outcome-cases, done, panic, ◌>>=◌, Returns, >>=-Returns,
}
use protohackers_go.Prelude.Int.{ℤ, pos, negsuc}

-- `i*i <= n` for an `int` of 64 bits: a product from 2 ^ 63 on wraps to a negative number.
unfoldable pub square_le : ℕ → ℕ → Bool
square_le i n = let square = i * i % 2 ^ 64 in if ltb square (2 ^ 63) then leb square n else true

-- The loop from `i` on; `none` is the end of the fuel.
unfoldable pub trial : ℕ → ℕ → ℕ → Option Bool
unfolding square_le
trial zero n i = none
trial (suc k) n i =
    let rest = trial k n (i + 1) in
    if square_le i n then (if n % i == 0 then some false else rest) else some true

unfoldable pub is_prime : ℤ → Option Bool
unfolding trial
is_prime (negsuc n) = some false
is_prime (pos n) = if leb n 1 then some false else trial n n 2
