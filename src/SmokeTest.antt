-- ===== src/SmokeTest.antt =====
-- `Handler` of smoke_test/server.go, which writes back what it reads.
mod Tests
use protohackers_go.Prelude.{
  ℕ, zero, suc, ◌+◌, ◌-◌, ◌*◌, ◌/◌, ◌%◌, ◌^◌, ◌≤◌, ◌<◌, ◌≡◌, refl, sym, ap, ◌∙◌, ◌≢◌, ◌↔◌, ◌⊎◌, inl,
  inr, Bool, true, false, not, ◌&&◌, ◌||◌, Option, none, some, List, [], ◌∷◌, ◌++◌, arith, ltb, leb,
  if◌then◌else◌, Bool-cases, Option-cases, Eq, ◌==◌, nat_eq, bytes_eq, Bytes, bytes_beq,
  bytes_beq_iff, ==_refl, ==→eq, ==_sym_false, codes, is_some, is_alphanumeric, all_of, digits,
  decimal, join, trim_left, trim_right, lines_from, read_lines, length, set, concat, get_elem?,
  take, drop, replicate, All, append_nil, length-append, length-take, length-drop, length-replicate,
  take-append, drop-append, take-append-drop, take_all, drop_all, split_at, List-cases,
  index_of-some, length_pos, All-append, All-mono, All-zip, Any, erase_idx, erase_idx-All,
  length-erase_idx, delete_func, delete_func-All, contains, index_of, find_first, find_first-some,
  find_first-none, All-get_elem?, contains-append, index_of-none, index_of-lt, Distinct,
  Distinct-append, contains-erase_idx_ne, contains-erase_idx_le, erase_idx-Distinct,
  contains-erase_idx_self, update, Outcome, Outcome-cases, done, panic, ◌>>=◌, Returns, >>=-Returns,
}
use protohackers_go.Reader.Conn.{Stream, IsStream, Result, ok, err, push, read, bytes_in}
use protohackers_go.Reader.Shrinks.{bytes_in-push}
use protohackers_go.Reader.Laws.{concat-push, push-IsStream}
use mathlib.Core.List.{append_assoc}

abbrev pub and_then : Bytes → Option Bytes → Option Bytes
and_then out none = none
and_then out (some rest) = some (out ++ rest)

-- What is written for a `Read`, and what the rest of the loop writes.
abbrev pub echo : (Stream → Option Bytes) → Result Bytes × Stream → Option Bytes
echo go_on (ok buf, s) = and_then buf (go_on s)
echo go_on (err e, s) = some []

-- The loop. `none` is the end of the fuel.
unfoldable pub rounds : ℕ → Stream → Option Bytes
unfolding read
rounds zero s = none
rounds (suc n) s = echo (λ t. rounds n t) (read 1024 s)

unfoldable pub handler : Stream → Option Bytes
unfolding rounds
handler s = rounds (bytes_in s + 1) s

rounds-concat : (n : ℕ) (s : Stream) → bytes_in s < n → IsStream s → rounds n s ≡ some (concat s)
unfolding rounds read
rounds-concat zero s h w = absurd (omega arith)
rounds-concat (suc n) [] h w = refl
rounds-concat (suc n) ([] ∷ cs) h w = absurd (w.0 refl)
rounds-concat (suc n) ((b ∷ bs) ∷ cs) h w =
    let rest = push (drop 1024 (b ∷ bs)) cs in
    let shorter : bytes_in rest < n =
      omega (arith, bytes_in-push (drop 1024 (b ∷ bs)) cs, length-drop 1024 (b ∷ bs)) in
    rw
      (
        rounds-concat n rest shorter (push-IsStream (drop 1024 (b ∷ bs)) cs w.1),
        concat-push (drop 1024 (b ∷ bs)) cs,
      )
      (ap (λ t. some (b ∷ t))
        (sym (append_assoc (take 1023 bs) (drop 1023 bs) (concat cs))
          ∙ ap (λ t. t ++ concat cs) (take-append-drop 1023 bs)))

-- The handler ends, and every byte of the connection is written back, in order and once.
pub handler-concat : (s : Stream) → IsStream s → handler s ≡ some (concat s)
unfolding handler
handler-concat s w = rounds-concat (bytes_in s + 1) s (omega arith) w
