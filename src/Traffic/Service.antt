-- ===== src/Traffic/Service.antt =====
-- The speed daemon as a whole: the connections that server/tcp_server.go accepts, each with the
-- `HandleClient` of traffic/traffic.go, and `handlingServer` on the channel of their messages.
use protohackers_go.Prelude.{
  Bool, Bool-cases, inl, inr, ℕ, zero, suc, ◌+◌, ◌^◌, ◌<◌, ◌≡◌, refl, inl, inr, Bool, true, false,
  Option, none, some, List, [], ◌∷◌, ◌++◌, arith, nat_eq, bytes_eq, length, All, All-append, done,
}
use protohackers_go.Reader.Conn.{Stream, Result, ok, err, next, return, bytes_in}
use protohackers_go.Reader.{read_byte}
use protohackers_go.Traffic.Packets.{Packet}
use protohackers_go.Traffic.Codec.Marshal.{marshal_error, marshal_string}
use protohackers_go.Traffic.Codec.Unmarshal.{unmarshal}
use protohackers_go.Traffic.Server.Types.{
  Float32, Message, connected, disconnected, received, nothing, Effect, Server, initial,
}
use protohackers_go.Traffic.Server.Handle.{run}
use protohackers_go.Traffic.Server.Invariant.{IsValid, initial-IsValid}
use protohackers_go.Traffic.Server.Safe.{run-IsSafe, clients_after}
use protohackers_go.Traffic.Server.Safe
use protohackers_go.Traffic.Client.{
  Event, to_server, to_client, new_packet, handle_opcode, round, continue_with, rounds, between,
  handle_client,
}
use protohackers_go.Server.Tcp.{Accepted, ids, ids-Distinct}
use protohackers_go.Server.Interleaving.{interleave, sessions}
use protohackers_go.Server.Sessions.{
  Kind, comes, says, goes, after, IsTrace, Speaks, IsSession, interleave-IsTrace,
}

abbrev pub kind_of : Message → Kind
kind_of connected = comes
kind_of disconnected = goes
kind_of m = says

-- What a connection puts on the channel.
abbrev pub messages : List Event → List Message
messages [] = []
messages (to_server m ∷ es) = m ∷ messages es
messages (to_client bs ∷ es) = messages es

abbrev pub messages_of : Option (List Event) → List Message
messages_of none = []
messages_of (some es) = messages es

-- The channel of `handlingServer`, for the connections accepted, the writes to them that succeed, their
-- bytes and the scheduler's choices.
abbrev pub traffic_channel :
    List Accepted → (ℕ → Stream → Bool) → (ℕ → Stream) → List ℕ → List (ℕ × Message)
traffic_channel accepts writes streams choices =
    interleave choices
      (sessions (λ i. messages_of (handle_client (writes i) (streams i))) (ids accepts))

abbrev IsSaid : Event → Type 0
IsSaid (to_server m) = kind_of m ≡ says
IsSaid (to_client bs) = Unit

abbrev AllSaid : Result (List Event) → Type 0
AllSaid (ok es) = All IsSaid es
AllSaid (err e) = Unit

abbrev AllSaid? : Option (List Event) → Type 0
AllSaid? none = Unit
AllSaid? (some es) = All IsSaid es

handle_opcode-AllSaid :
    (w : Stream → Bool) (o : Option Packet) (s : Stream) → AllSaid (handle_opcode w o s).0
unfolding handle_opcode
handle_opcode-AllSaid w none s =
    unfold marshal_error marshal_string in
    elim (Bool-cases (w s)) [ inl h ↦ rw h (tt, (refl, tt)) | inr h ↦ rw h tt ]
handle_opcode-AllSaid w (some p) s = got (unmarshal p s)
  where
    got :
        (x : Result Packet × Stream)
        → AllSaid (next x (λ q. return (to_server (received q) ∷ []))).0
    got (ok q, t) = (refl, tt)
    got (err e, t) = tt

round-AllSaid : (w : Stream → Bool) (s : Stream) → AllSaid (round w s).0
unfolding round
round-AllSaid w s = got (read_byte s)
  where
    got : (x : Result ℕ × Stream) → AllSaid (next x (λ op. handle_opcode w (new_packet op))).0
    got (ok op, t) = handle_opcode-AllSaid w (new_packet op) t
    got (err e, t) = tt

continue-AllSaid :
    (r : Result (List Event)) (rest : Option (List Event))
    → AllSaid r
    → AllSaid? rest
    → AllSaid? (continue_with r rest)
continue-AllSaid (ok es) none h k = tt
continue-AllSaid (ok es) (some fs) h k = All-append IsSaid es fs h k
continue-AllSaid (err e) rest h k = tt

rounds-AllSaid : (w : Stream → Bool) (n : ℕ) (s : Stream) → AllSaid? (rounds w n s)
unfolding rounds
rounds-AllSaid w zero s = tt
rounds-AllSaid w (suc n) s =
    continue-AllSaid (round w s).0 (rounds w n (round w s).1) (round-AllSaid w s)
      (rounds-AllSaid w n (round w s).1)

said-Speaks :
    (es : List Event)
    → All IsSaid es
    → Speaks kind_of (messages (es ++ to_server disconnected ∷ []))
said-Speaks [] h = inr (refl, refl)
said-Speaks (to_server m ∷ es) h = inl (h.0, said-Speaks es h.1)
said-Speaks (to_client bs ∷ es) h = said-Speaks es h.1

between-IsSession :
    (o : Option (List Event)) → AllSaid? o → IsSession kind_of (messages_of (between o))
between-IsSession none h = tt
between-IsSession (some es) h = (refl, said-Speaks es h)

handle_client-IsSession :
    (w : Stream → Bool) (s : Stream) → IsSession kind_of (messages_of (handle_client w s))
unfolding handle_client
handle_client-IsSession w s =
    between-IsSession (rounds w (bytes_in s + 1) s) (rounds-AllSaid w (bytes_in s + 1) s)

-- The map of the clients keeps those that have gone.
IsTrace-clients :
    (p clients : ℕ → Bool) (t : List (ℕ × Message))
    → ((c : ℕ) → p c ≡ true → clients c ≡ true)
    → IsTrace kind_of p t
    → Safe.IsTrace clients t
IsTrace-clients p clients [] k h = tt
IsTrace-clients p clients ((c, connected) ∷ t) k h = (
  tt,
  IsTrace-clients (after p c comes) (clients_after clients c connected) t
      (λ d x. ground (arith, k d)) h.1,
)
IsTrace-clients p clients ((c, disconnected) ∷ t) k h = (
  k c h.0,
  IsTrace-clients (after p c goes) (clients_after clients c disconnected) t
      (λ d x. ground (arith, k d)) h.1,
)
IsTrace-clients p clients ((c, nothing) ∷ t) k h = (k c h.0, IsTrace-clients p clients t k h.1)
IsTrace-clients p clients ((c, received q) ∷ t) k h = (k c h.0, IsTrace-clients p clients t k h.1)

-- Fewer than 2 ^ 64 - 1 connections, whatever bytes they send, in whatever segments, whichever answers
-- to them are written and in whatever order their messages come to the channel, do not make `handlingServer` panic: it handles every
-- message, and is left in a valid state.
pub run-traffic_channel :
    (fl : Float32) (accepts : List Accepted) (writes : ℕ → Stream → Bool) (streams : ℕ → Stream)
    (choices : List ℕ)
    → length accepts + 1 < 2 ^ 64
    → (a : Server × List Effect) × (run fl initial (traffic_channel accepts writes streams choices)
        ≡ done a)
      × IsValid a.0
run-traffic_channel fl accepts writes streams choices h =
    let (distinct, positive) = ids-Distinct accepts h in
    run-IsSafe fl initial (traffic_channel accepts writes streams choices) initial-IsValid (
      unfold initial in
      IsTrace-clients (λ c. false) (λ c. false) (traffic_channel accepts writes streams choices)
        (λ c x. x)
        (interleave-IsTrace kind_of choices (ids accepts)
          (λ i. messages_of (handle_client (writes i) (streams i))) distinct
          (λ i. handle_client-IsSession (writes i) (streams i))))
