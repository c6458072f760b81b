-- ===== src/Chat/Delivery.antt =====
-- What each client of chat/chat.go hears of a message, described for one client at a time.
use protohackers_go.Prelude.{
  ℕ, ◌≡◌, refl, sym, ap, ◌∙◌, inl, inr, Bool, not, ◌&&◌, Option, none, some, List, [], ◌∷◌, ◌++◌,
  arith, if◌then◌else◌, Bool-cases, ◌==◌, nat_eq, bytes_eq, Bytes, done,
}
use protohackers_go.Chat.{
  ChatSession, State, Message, connected, disconnected, said, Event, wrote, Order, is_connected,
  terminated, write_line, session_of, without, rename, greeting, handle_connected, release_name,
  left_line, others, leave, handle_disconnected, new_name, entered_line, room_line, is_name,
  set_name, chat_line, say, answer, handle_said, handle,
}
use mathlib.Core.List.{map}
use mathlib.Core.Path.{subst}
use protohackers_go.Chat.Sessions.{
  DistinctClients, IsRange, session_of-client, unless, session_of-delete_func,
  delete_func-DistinctClients, renamed, session_of-rename, rename-DistinctClients,
}
use protohackers_go.Chat.Recipients.{
  lines_to, lines_to-append, has_joined, line_if, lines_to-others,
}

-- The client `d` is not `c` and has joined.
abbrev pub is_other : State → ℕ → ℕ → Bool
is_other st c d = not (c == d) && has_joined (session_of d st.sessions)

abbrev pub heard_leave : State → ℕ → ℕ → Option ChatSession → List Bytes
heard_leave st c d none = []
heard_leave st c d (some s) =
    if is_connected s then line_if (is_other st c d) (left_line s.username) else []

-- The names that the list of the room has.
abbrev pub room : Order → State → ℕ → Bytes → List Bytes
room order st c name =
    map (λ (s : ChatSession). s.username) (others c (order (rename c name st.sessions)))

abbrev pub heard_name : Order → State → ℕ → ℕ → Bytes → List Bytes
heard_name order st c d value =
    let name = (new_name st.counters value).0 in
    if is_name value
    then line_if (is_other st c d) (entered_line name)
      ++ line_if (c == d) (room_line (room order st c name))
    else []

abbrev pub heard_said : Order → State → ℕ → ℕ → Bytes → Option ChatSession → List Bytes
heard_said order st c d value none = []
heard_said order st c d value (some s) =
    if s.username == []
    then heard_name order st c d value
    else if value == []
    then []
    else line_if (is_other st c d) (chat_line s.username value)

-- The lines that `d` gets when a message comes.
abbrev pub heard : Order → State → Message → ℕ → List Bytes
heard order st (connected c) d = line_if (c == d) greeting
heard order st (disconnected c) d = heard_leave st c d (session_of c st.sessions)
heard order st (said c value) d = heard_said order st c d value (session_of c st.sessions)

has_joined-without :
    (c d : ℕ) (ss : List ChatSession)
    → DistinctClients ss
    → (not (c == d) && has_joined (session_of d (without c ss)))
      ≡ (not (c == d) && has_joined (session_of d ss))
unfolding without
has_joined-without c d ss h =
    rw (session_of-delete_func (λ (s : ChatSession). s.client == c) d ss h)
      (still (session_of d ss) refl)
  where
    still :
        (o : Option ChatSession)
        → session_of d ss ≡ o
        → (not (c == d) && has_joined (unless (λ (s : ChatSession). s.client == c) o))
          ≡ (not (c == d) && has_joined o)
    still none e = refl
    still (some s) e = ground (arith, session_of-client d ss s e)

has_joined-rename :
    (c d : ℕ) (name : Bytes) (ss : List ChatSession)
    → (not (c == d) && has_joined (session_of d (rename c name ss)))
      ≡ (not (c == d) && has_joined (session_of d ss))
has_joined-rename c d name ss = rw (session_of-rename c d name ss) (still (session_of d ss) refl)
  where
    still :
        (o : Option ChatSession)
        → session_of d ss ≡ o
        → (not (c == d) && has_joined (renamed c name o)) ≡ (not (c == d) && has_joined o)
    still none e = refl
    still (some s) e = ground (arith, session_of-client d ss s e)

last_line :
    (d c : ℕ) (line : Bytes) → lines_to d (wrote c (terminated line) ∷ []) ≡ line_if (c == d) line
unfolding lines_to
last_line d c line = ground arith

leave-heard :
    (order : Order) (st : State) (c d : ℕ) (o : Option ChatSession) (a : State × List Event)
    → IsRange order
    → DistinctClients st.sessions
    → leave order st c o ≡ done a
    → lines_to d a.1 ≡ heard_leave st c d o
unfolding leave
leave-heard order st c d none a r h e = cc
leave-heard order st c d (some s) a r h e = elim (Bool-cases (is_connected s)) [
  | inl x ↦
      let rest = without c st.sessions in
      let line = left_line s.username in
      let b : State × List Event = (
        record st { sessions = rest; counters = release_name st.counters s.username },
        map (write_line line) (others c (order rest)),
      ) in
      let q : b ≡ a = cc (rw x at e) in
      subst (λ (a : State × List Event). lines_to d a.1 ≡ heard_leave st c d (some s)) q
        (rw x (
          lines_to-others order c d line rest r (delete_func-DistinctClients _ st.sessions h)
          ∙ ap (λ b. line_if b line) (has_joined-without c d st.sessions h)))
  | inr x ↦
      let q : (record st { sessions = without c st.sessions }, []) ≡ a = cc (rw x at e) in
      subst (λ (a : State × List Event). lines_to d a.1 ≡ heard_leave st c d (some s)) q
        (rw x (unfold lines_to in refl))
]

set_name-heard :
    (order : Order) (st : State) (c d : ℕ) (value : Bytes)
    → IsRange order
    → DistinctClients st.sessions
    → lines_to d (set_name order st c value).1 ≡ heard_name order st c d value
unfolding set_name
set_name-heard order st c d value r h = elim (Bool-cases (is_name value)) [
  | inl x ↦
      let name = (new_name st.counters value).0 in
      let present = others c (order (rename c name st.sessions)) in
      rw x (
        lines_to-append d (map (write_line (entered_line name)) present) _
        ∙ rw
            (
              lines_to-others order c d (entered_line name) (rename c name st.sessions) r
                  (rename-DistinctClients c name st.sessions h),
              has_joined-rename c d name st.sessions,
            )
            (ap (λ rest. line_if (is_other st c d) (entered_line name) ++ rest) (last_line d c _)))
  | inr x ↦ rw x (unfold lines_to in refl)
]

say-heard :
    (order : Order) (st : State) (d : ℕ) (s : ChatSession) (value : Bytes)
    → IsRange order
    → DistinctClients st.sessions
    → lines_to d (say order st s value).1
      ≡ (if value == [] then [] else line_if (is_other st s.client d) (chat_line s.username value))
unfolding say
say-heard order st d s value r h = elim (Bool-cases (value == [])) [
  | inl x ↦ rw x (unfold lines_to in refl)
  | inr x ↦ rw x (lines_to-others order s.client d (chat_line s.username value) st.sessions r h)
]

said-heard :
    (order : Order) (st : State) (c d : ℕ) (value : Bytes) (o : Option ChatSession)
    (a : State × List Event)
    → IsRange order
    → DistinctClients st.sessions
    → session_of c st.sessions ≡ o
    → answer order st c value o ≡ done a
    → lines_to d a.1 ≡ heard_said order st c d value o
unfolding answer
said-heard order st c d value none a r h i e = cc
said-heard order st c d value (some s) a r h i e = elim (Bool-cases (s.username == [])) [
  | inl x ↦
      let q : set_name order st c value ≡ a = cc (rw x at e) in
      rw x (
        ap (λ (a : State × List Event). lines_to d a.1) (sym q)
        ∙ set_name-heard order st c d value r h)
  | inr x ↦
      let q : say order st s value ≡ a = cc (rw x at e) in
      rw x (
        ap (λ (a : State × List Event). lines_to d a.1) (sym q)
        ∙ (say-heard order st d s value r h
            ∙ ap
                (λ k.
                  if value == []
                  then []
                  else line_if (is_other st k d) (chat_line s.username value))
                (session_of-client c st.sessions s i)))
]

-- Whatever the order in which the sessions are visited, each once, and where no client has two,
-- what a client is written when a message comes and is handled without a panic is this: a client
-- that connects gets the greeting. What a client says once it has a name goes once to each other
-- client that has one, and to no one if it is empty. The first thing it says, if it is a name, is
-- announced once to each other client that has one, and it gets the list of these; if it is no
-- name, nothing is written. When it disconnects, having a name, this is announced once to each
-- other client that has one. Nobody is written anything else.
pub handle-heard :
    (order : Order) (st : State) (m : Message) (d : ℕ) (a : State × List Event)
    → IsRange order
    → DistinctClients st.sessions
    → handle order st m ≡ done a
    → lines_to d a.1 ≡ heard order st m d
unfolding handle
handle-heard order st (connected c) d a r h e =
    let q : handle_connected st c ≡ a = cc in
    ap (λ (a : State × List Event). lines_to d a.1) (sym q)
    ∙ (unfold handle_connected in last_line d c greeting)
handle-heard order st (disconnected c) d a r h e =
    leave-heard order st c d (session_of c st.sessions) a r h (unfold handle_disconnected in e)
handle-heard order st (said c value) d a r h e =
    said-heard order st c d value (session_of c st.sessions) a r h refl (unfold handle_said in e)
