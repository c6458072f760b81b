-- ===== src/Chat.antt =====
-- chat/chat.go: the goroutine `runChatServer`, and the messages that a connection sends it.
pub mod Recipients
pub mod Sessions
pub mod Safe
pub mod Delivery
pub mod Names
pub mod Service
mod Tests
use protohackers_go.Prelude.{
  ℕ, zero, suc, ◌+◌, ◌-◌, ◌*◌, ◌/◌, ◌%◌, ◌^◌, ◌≤◌, ◌<◌, ◌≡◌, refl, sym, ap, ◌∙◌, ◌≢◌, ◌↔◌, ◌⊎◌, inl,
  inr, Bool, true, false, not, ◌&&◌, ◌||◌, Option, none, some, List, [], ◌∷◌, ◌++◌, arith, ltb, leb,
  if◌then◌else◌, Bool-cases, Option-cases, Eq, ◌==◌, nat_eq, bytes_eq, Bytes, bytes_beq,
  bytes_beq_iff, ==_refl, ==→eq, ==_sym_false, codes, is_alphanumeric, all_of, digits, decimal,
  join, trim_left, trim_right, lines_from, read_lines, length, set, concat, get_elem?, take, drop,
  replicate, All, length-append, length-take, length-drop, length-replicate, take-append,
  drop-append, take-append-drop, take_all, drop_all, split_at, List-cases, index_of-some,
  length_pos, All-append, All-mono, All-zip, Any, erase_idx, erase_idx-All, length-erase_idx,
  delete_func, delete_func-All, contains, index_of, find_first, find_first-some, find_first-none,
  All-get_elem?, contains-append, index_of-none, index_of-lt, Distinct, Distinct-append,
  contains-erase_idx_ne, contains-erase_idx_le, erase_idx-Distinct, contains-erase_idx_self, update,
  Outcome, Outcome-cases, done, panic, ◌>>=◌, Returns, >>=-Returns,
}
use mathlib.Core.List.{map}

-- A `*ChatSession`. The client is named by its Id; the username is empty until it has joined.
pub record ChatSession : Type 0 where
  pub client : ℕ
  pub username : Bytes

-- The map `sessions`, as the list of its values, and `usernameMaps`.
pub record State : Type 0 where
  pub sessions : List ChatSession
  pub counters : Bytes → Option ℕ

unfoldable pub initial : State
initial = record { sessions = []; counters = λ u. none }

-- What comes on one of the three channels.
pub data Message : Type 0 where
  connected : ℕ → Message
  disconnected : ℕ → Message
  said : ℕ → Bytes → Message

-- A line written to a client, or its connection closed.
pub data Event : Type 0 where
  wrote : ℕ → Bytes → Event
  closed : ℕ → Event

-- The order in which a `range` over the map visits its values, which Go leaves open.
abbrev pub Order : Type 0
Order = List ChatSession → List ChatSession

abbrev pub is_connected : ChatSession → Bool
is_connected s = not (s.username == [])

-- `writeLine`, whose line is never empty.
abbrev pub terminated : Bytes → Bytes
terminated [] = []
terminated (c ∷ []) = if c == 10 then c ∷ [] else c ∷ 10 ∷ []
terminated (c ∷ d ∷ s) = c ∷ terminated (d ∷ s)

abbrev pub write_line : Bytes → ChatSession → Event
write_line line s = wrote s.client (terminated line)

unfoldable pub session_of : ℕ → List ChatSession → Option ChatSession
session_of c [] = none
session_of c (s ∷ ss) = let rest = session_of c ss in if s.client == c then some s else rest

-- `delete(sessions, client)`.
unfoldable pub without : ℕ → List ChatSession → List ChatSession
without c ss = delete_func (λ (s : ChatSession). s.client == c) ss

-- `session.username = name`, through the pointer in the map.
unfoldable pub rename : ℕ → Bytes → List ChatSession → List ChatSession
rename c name [] = []
rename c name (s ∷ ss) =
    (if s.client == c then record s { username = name } else s) ∷ rename c name ss

abbrev pub greeting : Bytes
greeting = codes "Please enter your username..."

-- `case client := <-connected`; the pointer is a new key of the map.
unfoldable pub handle_connected : State → ℕ → State × List Event
handle_connected st c =
    let session : ChatSession = record { client = c; username = [] } in
    (record st { sessions = st.sessions ++ session ∷ [] }, write_line greeting session ∷ [])

-- The name has one user less; `usernameMaps[...]` of a missing name is 0.
unfoldable pub release_name : (Bytes → Option ℕ) → Bytes → Bytes → Option ℕ
release_name counters u = elim (counters u) [
  | none ↦ update counters u none
  | some n ↦ if leb n 1 then update counters u none else update counters u (some (n - 1))
]

abbrev pub left_line : Bytes → Bytes
left_line u = codes "* " ++ u ++ codes " has left the room"

-- The sessions that a loop over `sessions` writes to: the ones that have joined, without `c`.
unfoldable pub others : ℕ → List ChatSession → List ChatSession
others c ss = delete_func (λ (s : ChatSession). s.client == c || not (is_connected s)) ss

-- `case client := <-disconnected`, with the session that was there; without one it is a nil pointer.
unfoldable pub leave : Order → State → ℕ → Option ChatSession → Outcome (State × List Event)
unfolding without release_name others
leave order st c none = panic
leave order st c (some s) =
    let rest = without c st.sessions in
    if is_connected s
    then done (
      record st { sessions = rest; counters = release_name st.counters s.username },
      map (write_line (left_line s.username)) (others c (order rest)),
    )
    else done (record st { sessions = rest }, [])

unfoldable pub handle_disconnected : Order → State → ℕ → Outcome (State × List Event)
unfolding leave session_of
handle_disconnected order st c = leave order st c (session_of c st.sessions)

-- The username that a client gets, and the new counters.
unfoldable pub new_name : (Bytes → Option ℕ) → Bytes → Bytes × (Bytes → Option ℕ)
unfolding decimal
new_name counters value = elim (counters value) [
  | none ↦ (value, update counters value (some 1))
  | some n ↦ (value ++ decimal n, update counters value (some (n + 1)))
]

abbrev pub entered_line : Bytes → Bytes
entered_line u = codes "* " ++ u ++ codes " has entered the room"

abbrev pub room_line : List Bytes → Bytes
room_line [] = codes "* The room is currently empty"
room_line (u ∷ us) = codes "* The room contains: " ++ join (u ∷ us) (codes ", ")

abbrev pub is_name : Bytes → Bool
is_name value = not (value == []) && all_of is_alphanumeric value

-- The first message of a client sets its name.
unfoldable pub set_name : Order → State → ℕ → Bytes → State × List Event
unfolding new_name rename others
set_name order st c value =
    let (name, counters) = new_name st.counters value in
    let sessions = rename c name st.sessions in
    let present = others c (order sessions) in
    if is_name value
    then (
      record { sessions = sessions; counters = counters },
      map (write_line (entered_line name)) present
          ++ wrote c (terminated (room_line (map (λ (s : ChatSession). s.username) present))) ∷ [],
    )
    else (st, closed c ∷ [])

abbrev pub chat_line : Bytes → Bytes → Bytes
chat_line u value = codes "[" ++ u ++ codes "] " ++ value

-- Any later one goes to the others.
unfoldable pub say : Order → State → ChatSession → Bytes → State × List Event
unfolding others
say order st s value =
    if value == []
    then (st, [])
    else (st, map (write_line (chat_line s.username value)) (others s.client (order st.sessions)))

-- `case message := <-message`; without a session it is a nil pointer.
unfoldable pub answer :
    Order → State → ℕ → Bytes → Option ChatSession → Outcome (State × List Event)
unfolding set_name say
answer order st c value none = panic
answer order st c value (some s) =
    if s.username == [] then done (set_name order st c value) else done (say order st s value)

unfoldable pub handle_said : Order → State → ℕ → Bytes → Outcome (State × List Event)
unfolding answer session_of
handle_said order st c value = answer order st c value (session_of c st.sessions)

-- One round of the loop.
unfoldable pub handle : Order → State → Message → Outcome (State × List Event)
handle order st (connected c) = done (handle_connected st c)
handle order st (disconnected c) = handle_disconnected order st c
handle order st (said c value) = handle_said order st c value

unfoldable pub run : State → List (Order × Message) → Outcome (State × List Event)
unfolding handle
run st [] = done (st, [])
run st ((order, m) ∷ ms) = handle order st m >>= λ a. run a.0 ms >>= λ b. done (b.0, a.1 ++ b.1)

-- `HandleClient`: the lines of the connection without the newlines at their ends.
abbrev pub is_newline : ℕ → Bool
is_newline c = c == 13 || c == 10

unfoldable pub handle_client : ℕ → Bytes → List Message
unfolding read_lines trim_right
handle_client c bytes =
    connected c ∷ map (λ line. said c (trim_right is_newline line)) (read_lines bytes)
    ++ disconnected c ∷ []
