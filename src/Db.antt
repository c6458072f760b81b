-- ===== src/Db.antt =====
-- db/db.go: the database that answers datagrams. A datagram with a `=` inserts, any other one reads.
pub mod Laws
mod Tests
use protohackers_go.Prelude.{
  codes, ℕ, zero, suc, ◌+◌, ◌-◌, ◌*◌, ◌/◌, ◌%◌, ◌^◌, ◌≤◌, ◌<◌, ◌≡◌, refl, sym, ap, ◌∙◌, ◌≢◌, ◌↔◌,
  ◌⊎◌, inl, inr, Bool, true, false, not, ◌&&◌, ◌||◌, Option, none, some, List, [], ◌∷◌, ◌++◌, arith,
  ltb, leb, if◌then◌else◌, Bool-cases, Option-cases, Eq, ◌==◌, nat_eq, bytes_eq, Bytes, bytes_beq,
  bytes_beq_iff, ==_refl, ==→eq, ==_sym_false, length, set, concat, get_elem?, take, drop,
  replicate, All, length-append, length-take, length-drop, length-replicate, take-append,
  drop-append, take-append-drop, take_all, drop_all, split_at, List-cases, index_of-some,
  length_pos, All-append, All-mono, All-zip, Any, erase_idx, erase_idx-All, length-erase_idx,
  delete_func, delete_func-All, contains, index_of, find_first, find_first-some, find_first-none,
  All-get_elem?, contains-append, index_of-none, index_of-lt, Distinct, Distinct-append,
  contains-erase_idx_ne, contains-erase_idx_le, erase_idx-Distinct, contains-erase_idx_self, update,
  Outcome, Outcome-cases, done, panic, ◌>>=◌, Returns, >>=-Returns,
}

abbrev pub version_key : Bytes
version_key = codes "version"

abbrev pub delete_key : Bytes
delete_key = codes "delete"

abbrev pub version : Bytes
version = codes "alpha"

-- What a client sends on the channel of the goroutine that has the data.
pub data Event : Type 0 where
  write_event : Bytes → Bytes → Event
  read_event : Bytes → Event
  delete_event : Event

-- The data: a missing key reads as the empty string.
abbrev pub Store : Type 0
Store = Bytes → Bytes

unfoldable pub empty : Store
empty = λ k. []

-- One round of `startServer`: the data, and what it sends back to the reader.
unfoldable pub serve : Store → Event → Store × Option Bytes
unfolding empty
serve s (write_event k v) = (update s k v, none)
serve s (read_event k) = (s, some (s k))
serve s delete_event = (empty, none)

unfoldable pub ends_with_crlf : Bytes → Bool
ends_with_crlf s = leb 2 (length s) && drop (length s - 2) s == 13 ∷ 10 ∷ []

-- The payload that answers a read.
unfoldable pub payload : Bytes → Bytes → Bytes
unfolding ends_with_crlf
payload m value = (m ++ 61 ∷ value) ++ (if ends_with_crlf m then 13 ∷ 10 ∷ [] else [])

abbrev answer : Bytes → Store × Option Bytes → Store × Option Bytes
answer m (s, none) = (s, none)
answer m (s, some value) = (s, some (payload m value))

-- The datagram has no `=`.
unfoldable pub read : Store → Bytes → Store × Option Bytes
unfolding serve payload
read s m =
    if m == delete_key
    then serve s delete_event
    else if m == version_key
    then (s, some (payload m version))
    else answer m (serve s (read_event m))

-- The datagram has its first `=` at `i`.
unfoldable pub insert : Store → Bytes → ℕ → Store × Option Bytes
unfolding serve
insert s m i =
    if take i m == version_key then (s, none) else serve s (write_event (take i m) (drop (i + 1) m))

abbrev pub insert_or_read : Store → Bytes → Option ℕ → Store × Option Bytes
insert_or_read s m (some i) = insert s m i
insert_or_read s m none = read s m

-- A datagram of a client, and the answer to it if it has one.
unfoldable pub handle : Store → Bytes → Store × Option Bytes
unfolding insert read
handle s m = insert_or_read s m (index_of m 61)

-- The datagrams of all clients in the order in which their events come to the channel.
unfoldable pub run : Store → List Bytes → Store
unfolding handle
run s [] = s
run s (m ∷ ms) = run (handle s m).0 ms
