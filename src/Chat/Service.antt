-- ===== src/Chat/Service.antt =====
-- The chat as a whole: the connections that server/tcp_server.go accepts, each with the `HandleClient`
-- of chat/chat.go, and `runChatServer` on what comes on its channels.
use protohackers_go.Prelude.{
  ℕ, suc, ◌+◌, ◌^◌, ◌<◌, ◌≡◌, refl, inl, inr, Bool, true, false, List, [], ◌∷◌, ◌++◌, nat_eq,
  bytes_eq, Bytes, read_lines, trim_right, length, All, All-append, update, done,
}
use protohackers_go.Chat.{
  State, initial, Message, connected, disconnected, said, Event, Order, is_newline, run,
  handle_client,
}
use protohackers_go.Chat.Safe
use protohackers_go.Chat.Safe.{IsValid, present_at_end, initial-IsValid, run-IsValid}
use protohackers_go.Server.Tcp.{Accepted, ids, ids-Distinct}
use protohackers_go.Server.Interleaving.{interleave, sessions, interleave-All}
use protohackers_go.Server.Sessions.{
  Kind, comes, says, goes, IsTrace, Speaks, IsSession, interleave-IsTrace,
}
use mathlib.Core.List.{map}

abbrev pub kind_of : Message → Kind
kind_of (connected c) = comes
kind_of (disconnected c) = goes
kind_of (said c value) = says

abbrev sender : Message → ℕ
sender (connected c) = c
sender (disconnected c) = c
sender (said c value) = c

-- The messages in the order in which `select` takes them, each with the order in which its loops visit
-- the sessions.
abbrev pub with_orders : (ℕ → Order) → ℕ → List (ℕ × Message) → List (Order × Message)
with_orders orders n [] = []
with_orders orders n ((c, m) ∷ t) = (orders n, m) ∷ with_orders orders (suc n) t

abbrev pub chat_channel :
    (ℕ → Order) → List Accepted → (ℕ → Bytes) → List ℕ → List (Order × Message)
chat_channel orders accepts bytes choices =
    with_orders orders 0
      (interleave choices (sessions (λ i. handle_client i (bytes i)) (ids accepts)))

said_lines : (c : ℕ) (ls : List Bytes) → List Message
said_lines c ls = map (λ line. said c (trim_right is_newline line)) ls

lines-Speaks : (c : ℕ) (ls : List Bytes) → Speaks kind_of (said_lines c ls ++ disconnected c ∷ [])
unfolding said_lines
lines-Speaks c [] = inr (refl, refl)
lines-Speaks c (l ∷ ls) = inl (refl, lines-Speaks c ls)

handle_client-IsSession : (c : ℕ) (bytes : Bytes) → IsSession kind_of (handle_client c bytes)
unfolding handle_client said_lines
handle_client-IsSession c bytes = (refl, lines-Speaks c (read_lines bytes))

lines-sender : (c : ℕ) (ls : List Bytes) → All (λ m. sender m ≡ c) (said_lines c ls)
unfolding said_lines
lines-sender c [] = tt
lines-sender c (l ∷ ls) = (refl, lines-sender c ls)

handle_client-sender : (c : ℕ) (bytes : Bytes) → All (λ m. sender m ≡ c) (handle_client c bytes)
unfolding handle_client said_lines
handle_client-sender c bytes = (
  refl,
  All-append (λ m. sender m ≡ c) (said_lines c (read_lines bytes)) (disconnected c ∷ [])
      (lines-sender c (read_lines bytes)) (refl, tt),
)

IsTrace-with_orders :
    (orders : ℕ → Order) (t : List (ℕ × Message)) (n : ℕ) (p : ℕ → Bool)
    → All (λ e. sender e.1 ≡ e.0) t
    → IsTrace kind_of p t
    → Safe.IsTrace p (with_orders orders n t)
IsTrace-with_orders orders [] n p s h = tt
IsTrace-with_orders orders ((c, connected d) ∷ t) n p s h =
    let next = IsTrace-with_orders orders t (suc n) (update p c true) s.1 h.1 in
    (rw s.0 h.0, rw s.0 next)
IsTrace-with_orders orders ((c, disconnected d) ∷ t) n p s h =
    let next = IsTrace-with_orders orders t (suc n) (update p c false) s.1 h.1 in
    (rw s.0 h.0, rw s.0 next)
IsTrace-with_orders orders ((c, said d value) ∷ t) n p s h =
    (rw s.0 h.0, IsTrace-with_orders orders t (suc n) p s.1 h.1)

all_ids : (P : ℕ → Type 0) (ids : List ℕ) → ((i : ℕ) → P i) → All P ids
all_ids P [] h = tt
all_ids P (i ∷ ids) h = (h i, all_ids P ids h)

-- Fewer than 2 ^ 64 - 1 connections, whatever bytes they send, in whatever order `select` takes their
-- messages and the loops visit the sessions, do not make `runChatServer` panic, and afterwards exactly
-- the clients that are still connected have a session, and none has two.
pub run-chat_channel :
    (orders : ℕ → Order) (accepts : List Accepted) (bytes : ℕ → Bytes) (choices : List ℕ)
    → length accepts + 1 < 2 ^ 64
    → (a : State × List Event) × (run initial (chat_channel orders accepts bytes choices) ≡ done a)
      × IsValid (present_at_end (λ c. false) (chat_channel orders accepts bytes choices)) a.0
run-chat_channel orders accepts bytes choices h =
    let (distinct, positive) = ids-Distinct accepts h in
    let t = interleave choices (sessions (λ i. handle_client i (bytes i)) (ids accepts)) in
    run-IsValid (λ c. false) initial (chat_channel orders accepts bytes choices) initial-IsValid
      (IsTrace-with_orders orders t 0 (λ c. false)
        (interleave-All (λ i m. sender m ≡ i) choices (ids accepts) (λ i. handle_client i (bytes i))
          (all_ids (λ i. All (λ m. sender m ≡ i) (handle_client i (bytes i))) (ids accepts)
            (λ i. handle_client-sender i (bytes i))))
        (interleave-IsTrace kind_of choices (ids accepts) (λ i. handle_client i (bytes i)) distinct
          (λ i. handle_client-IsSession i (bytes i))))
