-- ===== src/Jobcentre/Service.antt =====
-- The job centre as a whole: the connections that server/tcp_server.go accepts, each with the `handler`
-- of jobcentre/jobcentre.go, and `internal` on the channel of their messages.
use protohackers_go.Prelude.{
  arith, All-mono, ℕ, ◌+◌, ◌^◌, ◌<◌, ◌≡◌, ◌≢◌, refl, inl, inr, Bool, true, false, Option, none,
  some, List, [], ◌∷◌, ◌++◌, Bool-cases, ◌==◌, nat_eq, bytes_eq, Bytes, codes, read_lines, length,
  All, All-append, done,
}
use protohackers_go.Jobcentre.Types.{
  Response, Request, connected, disconnected, put, get, abort, delete, State, Sent, initial,
}
use protohackers_go.Jobcentre.Handler.{
  Decoders, Event, to_internal, to_client, invalid_request, unknown_request, W, return, next, ◌>>◌,
  send_message, write_status, complain, forward, dispatch, round, rounds, handler,
}
use protohackers_go.Jobcentre.Internal.{run}
use protohackers_go.Jobcentre.Invariant.{IsValid}
use protohackers_go.Jobcentre.Preservation.{IsSender, initial-IsValid, handle-IsValid}
use protohackers_go.Jobcentre.Presence.{kind_of, handle-HasClients}
use protohackers_go.Jobcentre.Counter.{handle-counts}
use protohackers_go.Server.Tcp.{Accepted, ids, ids-Distinct, no_Id_zero}
use protohackers_go.Server.Interleaving.{
  interleave, sessions, interleave-length, interleave-All, All-constant,
}
use protohackers_go.Server.Sessions.{
  says, after, IsNext, IsTrace, Speaks, IsSession, interleave-IsTrace,
}

module _ {D : Type 0} where
  -- What a handler puts on the channel.
  abbrev pub requests : List (Event D) → List (Request D)
  requests [] = []
  requests (to_internal r ∷ es) = r ∷ requests es
  requests (to_client r ∷ es) = requests es

  -- The channel of `internal`, for the connections accepted, the results of the writes of each, their
  -- bytes and the scheduler's choices.
  abbrev pub job_channel :
      Decoders D → List Accepted → (ℕ → ℕ → Bool) → (ℕ → Bytes) → List ℕ → List (ℕ × Request D)
  job_channel d accepts writes bytes choices =
      interleave choices (sessions (λ i. requests (handler d (writes i) (bytes i))) (ids accepts))

  IsSaid : Event D → Type 0
  IsSaid (to_internal r) = kind_of r ≡ says
  IsSaid (to_client r) = Unit

  AllSaid : List (Event D) → Type 0
  AllSaid es = All IsSaid es

  -- A step that does not send that a client comes or goes.
  OnlySays : {A : Type 0} → W D A → Type 0
  OnlySays m = (n : ℕ) → AllSaid (m n).0

  next-AllSaid :
      {A B : Type 0} (x : List (Event D) × (ℕ × Option A)) (f : A → W D B)
      → AllSaid x.0
      → ((a : A) → OnlySays (f a))
      → AllSaid (next x f).0
  unfolding AllSaid OnlySays
  next-AllSaid (es, (n, none)) f h k = h
  next-AllSaid (es, (n, some a)) f h k = All-append IsSaid es (f a n).0 h (k a n)

  write_status-OnlySays :
      (writes : ℕ → Bool) (r : Response D) → OnlySays (write_status writes (to_client r))
  unfolding OnlySays AllSaid IsSaid
  write_status-OnlySays writes r n = elim (Bool-cases (writes n)) [
    | inl a ↦ rw a (tt, tt)
    | inr a ↦ rw a tt
  ]

  complain-OnlySays :
      (writes : ℕ → Bool) (ok : Bool) (r : Response D) → OnlySays (complain writes ok (to_client r))
  unfolding OnlySays AllSaid
  complain-OnlySays writes true r n = tt
  complain-OnlySays writes false r n = write_status-OnlySays writes r n

  forward-OnlySays :
      (writes : ℕ → Bool) (ok : Bool) (r : Request D)
      → kind_of r ≡ says
      → OnlySays (forward writes ok r)
  unfolding OnlySays AllSaid IsSaid
  forward-OnlySays writes ok r h n =
      next-AllSaid (complain writes ok invalid_request n) (λ a. send_message r)
        (complain-OnlySays writes ok _ n) (λ a m. (h, tt))

  dispatch-OnlySays :
      (d : Decoders D) (writes : ℕ → Bool) (name data_in : Bytes)
      → OnlySays (dispatch d writes name data_in)
  unfolding dispatch
  dispatch-OnlySays d writes name data_in = elim (Bool-cases (name == codes "put")) [
    | inl a ↦ rw a (forward-OnlySays writes _ _ refl)
    | inr a ↦ elim (Bool-cases (name == codes "get")) [
      | inl b ↦ rw (a, b) (forward-OnlySays writes _ _ refl)
      | inr b ↦ elim (Bool-cases (name == codes "abort")) [
        | inl c ↦ rw (a, b, c) (forward-OnlySays writes _ _ refl)
        | inr c ↦ elim (Bool-cases (name == codes "delete")) [
          | inl e ↦ rw (a, b, c, e) (forward-OnlySays writes _ _ refl)
          | inr e ↦ rw (a, b, c, e) (write_status-OnlySays writes _)
        ]
      ]
    ]
  ]

  round-OnlySays :
      (d : Decoders D) (writes : ℕ → Bool) (name data_in : Bytes)
      → OnlySays (round d writes name data_in)
  unfolding round OnlySays AllSaid
  round-OnlySays d writes name data_in n =
      let (ok, new_name) = d.decode_request data_in name in
      next-AllSaid (complain writes ok unknown_request n)
        (λ a. dispatch d writes new_name data_in >> return new_name)
        (complain-OnlySays writes ok _ n)
        (λ a m.
          next-AllSaid (dispatch d writes new_name data_in m) (λ b. return new_name)
            (dispatch-OnlySays d writes new_name data_in m) (λ b k. tt))

  rounds-OnlySays :
      (d : Decoders D) (writes : ℕ → Bool) (name : Bytes) (ls : List Bytes)
      → OnlySays (rounds d writes name ls)
  unfolding rounds OnlySays AllSaid
  rounds-OnlySays d writes name [] n = tt
  rounds-OnlySays d writes name (l ∷ ls) n =
      next-AllSaid (round d writes name l n) (λ new_name. rounds d writes new_name ls)
        (round-OnlySays d writes name l n) (λ new_name. rounds-OnlySays d writes new_name ls)

  said-Speaks :
      (es : List (Event D))
      → AllSaid es
      → Speaks kind_of (requests (es ++ to_internal disconnected ∷ []))
  unfolding IsSaid AllSaid
  said-Speaks [] h = inr (refl, refl)
  said-Speaks (to_internal r ∷ es) h = inl (h.0, said-Speaks es h.1)
  said-Speaks (to_client r ∷ es) h = said-Speaks es h.1

  handler-IsSession :
      (d : Decoders D) (writes : ℕ → Bool) (bytes : Bytes)
      → IsSession kind_of (requests (handler d writes bytes))
  unfolding handler OnlySays
  handler-IsSession d writes bytes =
      let ls = read_lines bytes in
      (refl, said-Speaks (rounds d writes [] ls 0).0 (rounds-OnlySays d writes [] ls 0))

  IsNext→IsSender :
      (s : State D) (c : ℕ) (r : Request D)
      → c ≢ 0
      → IsNext s.clients c (kind_of r)
      → IsSender s c r
  IsNext→IsSender s c connected z h = z
  IsNext→IsSender s c disconnected z h = h
  IsNext→IsSender s c (put q payload pri) z h = h
  IsNext→IsSender s c (get qs wait) z h = h
  IsNext→IsSender s c (abort i) z h = h
  IsNext→IsSender s c (delete i) z h = h

  run-trace :
      (s : State D) (t : List (ℕ × Request D))
      → IsValid s
      → IsTrace kind_of s.clients t
      → All (λ e. e.0 ≢ 0) t
      → s.next_id + length t < 2 ^ 64
      → (a : State D × Sent D) × (run s t ≡ done a) × IsValid a.0
  unfolding run
  run-trace s [] v h z b = ((s, []), refl, v)
  run-trace s ((c, r) ∷ t) v h z bound =
      let (s', out, e, w) = handle-IsValid s c r (omega arith) v (IsNext→IsSender s c r z.0 h.0) in
      let q : s'.clients ≡ after s.clients c (kind_of r) = rw e at (handle-HasClients s c r) in
      let (b, g, u) =
        run-trace s' t w (rw q h.1) z.1 (omega (arith, bound, handle-counts s c r (s', out) e)) in
      ((b.0, out ++ b.1), rw (e, g) refl, u)

  -- Fewer than 2 ^ 64 - 1 connections in fewer than 2 ^ 64 - 1 turns, whatever bytes they send, whatever `encoding/json` makes of them,
  -- whichever writes of their handlers fail and in whatever order their messages come to the channel,
  -- do not make `internal` panic: it handles every message, and is left in a valid state.
  pub run-job_channel :
      (d : Decoders D) (accepts : List Accepted) (writes : ℕ → ℕ → Bool) (bytes : ℕ → Bytes)
      (choices : List ℕ)
      → length accepts + 1 < 2 ^ 64
      → length choices + 1 < 2 ^ 64
      → (a : State D × Sent D) × (run initial (job_channel d accepts writes bytes choices) ≡ done a)
        × IsValid a.0
  run-job_channel d accepts writes bytes choices h b =
      let sent : (ℕ → List (Request D)) = λ i. requests (handler d (writes i) (bytes i)) in
      let (distinct, positive) = ids-Distinct accepts h in
      run-trace initial (job_channel d accepts writes bytes choices) initial-IsValid
        (unfold initial in
          interleave-IsTrace kind_of choices (ids accepts) sent distinct
            (λ i. handler-IsSession d (writes i) (bytes i)))
        (interleave-All (λ i m. i ≢ 0) choices (ids accepts) sent
          (All-mono (λ i. i ≢ 0) (λ i. All (λ m. i ≢ 0) (sent i)) (ids accepts)
            (λ i z. All-constant (i ≢ 0) z (sent i)) (no_Id_zero (ids accepts) positive)))
        (unfold initial in
          omega (arith, b, interleave-length choices (sessions sent (ids accepts))))
