-- ===== src/Chat/Tests.antt =====
-- The chat of chat/chat.go on a few messages.
use protohackers_go.Prelude.{
  arith, ℕ, ◌≡◌, refl, false, none, some, List, [], ◌∷◌, ◌++◌, nat_eq, bytes_eq, Bytes, bytes_beq,
  codes, is_alphanumeric, digits, decimal, trim_right, read_lines, delete_func, update, Outcome,
  done, panic,
}
use protohackers_go.Chat.{
  ChatSession, State, initial, Message, connected, disconnected, said, Event, wrote, Order,
  terminated, session_of, without, rename, handle_connected, release_name, others, leave,
  handle_disconnected, new_name, set_name, say, answer, handle_said, handle, run, handle_client,
}
use protohackers_go.Chat.Sessions.{DistinctClients, IsRange}
use protohackers_go.Chat.Recipients.{lines_to}
use protohackers_go.Chat.Delivery.{heard, handle-heard}
use protohackers_go.Chat.Service.{chat_channel, run-chat_channel}
use protohackers_go.Server.Tcp.{connection}
use protohackers_go.Chat.Safe.{IsValid, initial-IsValid, present_at_end, run-IsValid}
use protohackers_go.Chat.Names.{same_username}

abbrev in_order : Order
in_order ss = ss

in_order-IsRange : IsRange in_order
in_order-IsRange = record { same = λ ss d h. refl; once = λ ss h. h }

abbrev named_session : ℕ → Bytes → ChatSession
named_session c name = record { client = c; username = name }

abbrev room_of_three : State
room_of_three = record {
  sessions =
      named_session 1 (codes "bob") ∷ named_session 2 (codes "ann") ∷ named_session 3 [] ∷ [];
  counters = update (update (λ u. none) (codes "bob") (some 1)) (codes "ann") (some 1);
}

abbrev after_hello : State × List Event
after_hello = (room_of_three, wrote 2 (terminated (codes "[bob] hello")) ∷ [])

hello : handle in_order room_of_three (said 1 (codes "hello")) ≡ done after_hello
unfolding handle handle_said answer say others session_of delete_func bytes_beq
hello = refl

room_of_three-DistinctClients : DistinctClients room_of_three.sessions
unfolding session_of
room_of_three-DistinctClients = (refl, (refl, (refl, tt)))

handle-heard_example :
    lines_to 2 after_hello.1 ≡ heard in_order room_of_three (said 1 (codes "hello")) 2
handle-heard_example =
    handle-heard in_order room_of_three (said 1 (codes "hello")) 2 after_hello in_order-IsRange
      room_of_three-DistinctClients hello

abbrev visits : List (Order × Message)
visits =
    (in_order, connected 1)
    ∷ (in_order, said 1 (codes "bob"))
    ∷ (in_order, connected 2)
    ∷ (in_order, said 2 (codes "bob"))
    ∷ (in_order, disconnected 1)
    ∷ []

visits_pass :
    (a : State × List Event) × (run initial visits ≡ done a)
    × IsValid (present_at_end (λ d. false) visits) a.0
visits_pass =
    run-IsValid (λ d. false) initial visits initial-IsValid
      (refl, (refl, (refl, (refl, (refl, tt)))))

abbrev one_named : State
one_named = record {
  sessions = named_session 1 (codes "bob") ∷ named_session 2 [] ∷ named_session 3 [] ∷ [];
  counters = update (λ u. none) (codes "bob") (some 1);
}

same_username_example :
    (a : State × List Event) × (run one_named
        ((in_order, said 2 (codes "bob")) ∷ (in_order, said 3 (codes "bob1")) ∷ [])
      ≡ done a)
    × (session_of 2 a.0.sessions ≡ some (named_session 2 (codes "bob1")))
    × (session_of 3 a.0.sessions ≡ some (named_session 3 (codes "bob1")))
unfolding session_of bytes_beq is_alphanumeric decimal
same_username_example =
    same_username in_order in_order one_named 2 3 1 (codes "bob") refl refl refl refl refl refl refl

talk :
    handle_client 1 (codes "bob" ++ 13 ∷ 10 ∷ codes "hi" ++ 10 ∷ codes "rest")
    ≡ connected 1 ∷ said 1 (codes "bob") ∷ said 1 (codes "hi") ∷ disconnected 1 ∷ []
unfolding handle_client read_lines trim_right
talk = refl

-- The first bob leaves, and the third one gets the username that the second one still has.
abbrev bobs : List (Order × Message)
bobs =
    (in_order, connected 1)
    ∷ (in_order, said 1 (codes "bob"))
    ∷ (in_order, connected 2)
    ∷ (in_order, said 2 (codes "bob"))
    ∷ (in_order, disconnected 1)
    ∷ (in_order, connected 3)
    ∷ (in_order, said 3 (codes "bob"))
    ∷ []

abbrev sessions_after : Outcome (State × List Event) → List ChatSession
sessions_after (done a) = a.0.sessions
sessions_after panic = []

two_bob1 :
    sessions_after (run initial bobs)
    ≡ named_session 2 (codes "bob1") ∷ named_session 3 (codes "bob1") ∷ []
unfolding initial run handle handle_connected handle_said handle_disconnected answer leave set_name
    session_of new_name rename release_name others without delete_func bytes_beq is_alphanumeric
    decimal digits
two_bob1 = refl

abbrev two_speak : ℕ → Bytes
two_speak i = codes "bob" ++ 10 ∷ codes "hello" ++ 10 ∷ []

abbrev turns : List ℕ
turns = 0 ∷ 1 ∷ 0 ∷ 0 ∷ 1 ∷ 0 ∷ 1 ∷ []

run-chat_channel_example :
    (a : State × List Event) × (run initial
        (chat_channel (λ n. in_order) (connection ∷ connection ∷ []) two_speak turns)
      ≡ done a)
    × IsValid
        (present_at_end
          (λ c. false)
          (chat_channel (λ n. in_order) (connection ∷ connection ∷ []) two_speak turns))
        a.0
run-chat_channel_example =
    run-chat_channel (λ n. in_order) (connection ∷ connection ∷ []) two_speak turns (omega arith)
