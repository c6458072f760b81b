-- ===== src/Chat/Safe.antt =====
-- The goroutine of chat/chat.go does not panic.
use protohackers_go.Prelude.{
  ℕ, ◌≡◌, refl, ◌∙◌, inl, inr, Bool, true, false, Option, none, some, List, [], ◌∷◌, ◌++◌, arith,
  Bool-cases, ◌==◌, nat_eq, bytes_eq, Bytes, is_some, update, Outcome, done, panic, Returns,
}
use protohackers_go.Chat.{
  ChatSession, State, initial, Message, connected, disconnected, said, Event, Order, is_connected,
  session_of, without, handle_connected, leave, handle_disconnected, new_name, is_name, set_name,
  say, answer, handle_said, handle, run,
}
use protohackers_go.Chat.Sessions.{
  DistinctClients, session_of-client, session_of-append, append-DistinctClients, unless,
  session_of-delete_func, delete_func-DistinctClients, renamed, session_of-rename,
  rename-DistinctClients,
}

-- The clients with `p` have a session each, and no others have.
pub record IsValid (p : ℕ → Bool) (st : State) : Type 0 where
  pub distinct : DistinctClients st.sessions
  pub present : (d : ℕ) → is_some (session_of d st.sessions) ≡ p d

pub initial-IsValid : IsValid (λ d. false) initial
unfolding initial session_of
initial-IsValid = record { distinct = tt; present = λ d. refl }

-- A client connects once, and then speaks until it disconnects.
abbrev pub IsNext : (ℕ → Bool) → Message → Type 0
IsNext p (connected c) = p c ≡ false
IsNext p (disconnected c) = p c ≡ true
IsNext p (said c value) = p c ≡ true

abbrev pub present_after : (ℕ → Bool) → Message → ℕ → Bool
present_after p (connected c) = update p c true
present_after p (disconnected c) = update p c false
present_after p (said c value) = p

abbrev pub IsTrace : (ℕ → Bool) → List (Order × Message) → Type 0
IsTrace p [] = Unit
IsTrace p ((order, m) ∷ ms) = IsNext p m × IsTrace (present_after p m) ms

abbrev pub present_at_end : (ℕ → Bool) → List (Order × Message) → ℕ → Bool
present_at_end p [] = p
present_at_end p ((order, m) ∷ ms) = present_at_end (present_after p m) ms

is_none : (o : Option ChatSession) → is_some o ≡ false → o ≡ none
is_none none h = refl
is_none (some s) h = cc

connected-IsValid :
    (p : ℕ → Bool) (st : State) (c : ℕ)
    → IsValid p st
    → p c ≡ false
    → IsValid (update p c true) (handle_connected st c).0
unfolding handle_connected
connected-IsValid p st c v h =
    let s : ChatSession = record { client = c; username = [] } in
    let absent : session_of c st.sessions ≡ none =
      is_none (session_of c st.sessions) (v.present c ∙ h) in
    record {
      distinct = append-DistinctClients st.sessions s absent v.distinct;
      present = λ d. rw (session_of-append d st.sessions s absent) (ground (arith, v.present d));
    }

-- The session of `c` is gone, and those of the others are there.
without-present :
    (p : ℕ → Bool) (st : State) (c d : ℕ)
    → IsValid p st
    → is_some (session_of d (without c st.sessions)) ≡ update p c false d
unfolding without
without-present p st c d v =
    rw (session_of-delete_func (λ (s : ChatSession). s.client == c) d st.sessions v.distinct)
      (others_left (session_of d st.sessions) refl)
  where
    others_left :
        (o : Option ChatSession)
        → session_of d st.sessions ≡ o
        → is_some (unless (λ (s : ChatSession). s.client == c) o) ≡ update p c false d
    others_left none e = ground (arith, v.present d, e)
    others_left (some s) e = ground (arith, v.present d, e, session_of-client d st.sessions s e)

leave-IsValid :
    (p : ℕ → Bool) (order : Order) (st : State) (c : ℕ) (o : Option ChatSession)
    → IsValid p st
    → is_some o ≡ true
    → Returns (λ a. IsValid (update p c false) a.0) (leave order st c o)
unfolding leave
leave-IsValid p order st c none v h = cc
leave-IsValid p order st c (some s) v h =
    let distinct =
      delete_func-DistinctClients (λ (s : ChatSession). s.client == c) st.sessions v.distinct in
    elim (Bool-cases (is_connected s)) [
      | inl x ↦ rw x (record { distinct = distinct; present = λ d. without-present p st c d v })
      | inr x ↦ rw x (record { distinct = distinct; present = λ d. without-present p st c d v })
    ]

set_name-IsValid :
    (p : ℕ → Bool) (order : Order) (st : State) (c : ℕ) (value : Bytes)
    → IsValid p st
    → IsValid p (set_name order st c value).0
unfolding set_name
set_name-IsValid p order st c value v = elim (Bool-cases (is_name value)) [
  | inl x ↦
      let name = (new_name st.counters value).0 in
      rw x (record {
        distinct = rename-DistinctClients c name st.sessions v.distinct;
        present = λ d.
            rw (session_of-rename c d name st.sessions)
              (still d name (session_of d st.sessions) (v.present d));
      })
  | inr x ↦ rw x v
]
  where
    still :
        (d : ℕ) (name : Bytes) (o : Option ChatSession)
        → is_some o ≡ p d
        → is_some (renamed c name o) ≡ p d
    still d name none h = h
    still d name (some s) h = h

answer-IsValid :
    (p : ℕ → Bool) (order : Order) (st : State) (c : ℕ) (value : Bytes) (o : Option ChatSession)
    → IsValid p st
    → is_some o ≡ true
    → Returns (λ a. IsValid p a.0) (answer order st c value o)
unfolding answer
answer-IsValid p order st c value none v h = cc
answer-IsValid p order st c value (some s) v h = elim (Bool-cases (s.username == [])) [
  | inl x ↦ rw x (set_name-IsValid p order st c value v)
  | inr x ↦ elim (Bool-cases (value == [])) [
    | inl y ↦ rw x (unfold say in rw y v)
    | inr y ↦ rw x (unfold say in rw y v)
  ]
]

handle-IsValid :
    (p : ℕ → Bool) (order : Order) (st : State) (m : Message)
    → IsValid p st
    → IsNext p m
    → Returns (λ a. IsValid (present_after p m) a.0) (handle order st m)
unfolding handle handle_disconnected handle_said
handle-IsValid p order st (connected c) v h = connected-IsValid p st c v h
handle-IsValid p order st (disconnected c) v h =
    leave-IsValid p order st c (session_of c st.sessions) v (v.present c ∙ h)
handle-IsValid p order st (said c value) v h =
    answer-IsValid p order st c value (session_of c st.sessions) v (v.present c ∙ h)

Returns-done :
    (P : State × List Event → Type 0) (m : Outcome (State × List Event))
    → Returns P m
    → (a : State × List Event) × (m ≡ done a) × P a
Returns-done P (done a) h = (a, refl, h)
Returns-done P panic h = absurd h

-- From a state where exactly the clients with `p` have a session and none has two, no run of messages
-- panics on a session that is not there, if each client connects before it speaks and speaks only
-- until it disconnects, whatever the order in which the sessions are visited. Afterwards exactly the
-- clients that are still connected have a session, and none has two.
pub run-IsValid :
    (p : ℕ → Bool) (st : State) (ms : List (Order × Message))
    → IsValid p st
    → IsTrace p ms
    → (a : State × List Event) × (run st ms ≡ done a) × IsValid (present_at_end p ms) a.0
unfolding run
run-IsValid p st [] v h = ((st, []), refl, v)
run-IsValid p st ((order, m) ∷ ms) v (n, h) =
    let (a, e, w) =
      Returns-done (λ a. IsValid (present_after p m) a.0) (handle order st m)
        (handle-IsValid p order st m v n) in
    let (b, g, u) = run-IsValid (present_after p m) a.0 ms w h in
    ((b.0, a.1 ++ b.1), rw (e, g) refl, u)
