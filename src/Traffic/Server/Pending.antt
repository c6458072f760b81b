-- ===== src/Traffic/Server/Pending.antt =====
-- The tickets of traffic/traffic.go that wait for a dispatcher.
use protohackers_go.Prelude.{
  ℕ, ◌≡◌, sym, ◌⊎◌, inl, inr, true, Option, none, some, List, [], ◌∷◌, ◌++◌, Bool-cases,
  Option-cases, ◌==◌, nat_eq, bytes_eq, ==→eq, is_some, Any, contains, update, Outcome, done, panic,
  ◌>>=◌,
}
use protohackers_go.Traffic.Packets.{IAmCamera, IAmDispatcher, Ticket, WantHeartbeat}
use protohackers_go.Traffic.Balancer.{get}
use protohackers_go.Traffic.Server.Types.{Effect, send_ticket, Server}
use protohackers_go.Traffic.Server.Peers.{
  handle_want_heartbeat, handle_camera, handle_dispatcher, serve_road, serve_roads,
}
use protohackers_go.Traffic.Server.Handle.{next_dispatcher, deliver}
use mathlib.Core.List.{map}
use mathlib.Core.Path.{subst}

-- The ticket stands in the queue of the road.
abbrev pub Waits : Ticket → ℕ → Server → Type 0
Waits t road s = Any (λ (x : Ticket). x ≡ t) (s.tickets road)

abbrev pub IsSending : Ticket → Effect → Type 0
IsSending t (send_ticket d x) = x ≡ t
IsSending t _ = ⊥

abbrev pub WasSent : Ticket → List Effect → Type 0
WasSent t es = Any (IsSending t) es

-- It waits, or it was sent.
abbrev pub IsPending : Ticket → ℕ → Server × List Effect → Type 0
IsPending t road a = Waits t road a.0 ⊎ WasSent t a.1

abbrev pub IfDone {ℓ} : {A : Type ℓ} → (A → Type 0) → Outcome A → Type 0
IfDone P (done a) = P a
IfDone P panic = Unit

pub >>=-IfDone {ℓ κ} :
    {A : Type ℓ} {B : Type κ} (P : A → Type 0) (Q : B → Type 0) (m : Outcome A) (f : A → Outcome B)
    → IfDone P m
    → ((a : A) → P a → IfDone Q (f a))
    → IfDone Q (m >>= f)
>>=-IfDone P Q (done a) f h k = k a h
>>=-IfDone P Q panic f h k = tt

pub Any-front {ℓ} : {A : Type ℓ} (P : A → Type 0) (xs ys : List A) → Any P xs → Any P (xs ++ ys)
Any-front P [] ys h = absurd h
Any-front P (x ∷ xs) ys (inl p) = inl p
Any-front P (x ∷ xs) ys (inr h) = inr (Any-front P xs ys h)

pub Any-back {ℓ} : {A : Type ℓ} (P : A → Type 0) (xs ys : List A) → Any P ys → Any P (xs ++ ys)
Any-back P [] ys h = h
Any-back P (x ∷ xs) ys h = inr (Any-back P xs ys h)

pub whatever {ℓ} : {A : Type ℓ} (m : Outcome A) → IfDone (λ a. Unit) m
whatever (done a) = tt
whatever panic = tt

-- A new dispatcher gets all the tickets that wait for its road.
sent_to :
    (t : Ticket) (c : ℕ) (ts : List Ticket)
    → Any (λ (x : Ticket). x ≡ t) ts
    → WasSent t (map (send_ticket c) ts)
sent_to t c [] h = absurd h
sent_to t c (x ∷ ts) (inl p) = inl p
sent_to t c (x ∷ ts) (inr h) = inr (sent_to t c ts h)

serve_road-IsPending :
    (t : Ticket) (road : ℕ) (s : Server) (c r : ℕ)
    → Waits t road s
    → IsPending t road (serve_road s c r)
unfolding serve_road
serve_road-IsPending t road s c r h = elim (Bool-cases (r == road)) [
  | inl x ↦
      let q : road ≡ r = sym (==→eq r road x) in
      inr (sent_to t c (s.tickets r) (subst (λ r. Any (λ (x : Ticket). x ≡ t) (s.tickets r)) q h))
  | inr x ↦ inl (rw x h)
]

serve_roads-IsPending :
    (t : Ticket) (road : ℕ) (s : Server) (c : ℕ) (roads : List ℕ)
    → Waits t road s
    → IsPending t road (serve_roads s c roads)
unfolding serve_roads
serve_roads-IsPending t road s c [] h = inl h
serve_roads-IsPending t road s c (r ∷ roads) h =
    let (u, out) = serve_road s c r in
    elim (serve_road-IsPending t road s c r h) [
      | inl w ↦ elim (serve_roads-IsPending t road (serve_road s c r).0 c roads w) [
        | inl v ↦ inl v
        | inr v ↦ inr (Any-back (IsSending t) (serve_road s c r).1 _ v)
      ]
      | inr w ↦ inr (Any-front (IsSending t) (serve_road s c r).1 _ w)
    ]

serve_roads-WasSent :
    (t : Ticket) (road : ℕ) (s : Server) (c : ℕ) (roads : List ℕ)
    → contains roads road ≡ true
    → Waits t road s
    → WasSent t (serve_roads s c roads).1
unfolding serve_roads serve_road contains
serve_roads-WasSent t road s c [] k h = cc
serve_roads-WasSent t road s c (r ∷ roads) k h = elim (Bool-cases (r == road)) [
  | inl x ↦
      let q : road ≡ r = sym (==→eq r road x) in
      Any-front (IsSending t) (map (send_ticket c) (s.tickets r)) _
        (sent_to t c (s.tickets r) (subst (λ r. Any (λ (x : Ticket). x ≡ t) (s.tickets r)) q h))
  | inr x ↦
      Any-back (IsSending t) (map (send_ticket c) (s.tickets r)) _
        (serve_roads-WasSent t road (serve_road s c r).0 c roads (rw x at k) (rw x h))
]

pub dispatcher-WasSent :
    (t : Ticket) (road : ℕ) (s : Server) (c : ℕ) (p : IAmDispatcher)
    → s.dispatchers c ≡ none
    → s.cameras c ≡ none
    → contains p.roads road ≡ true
    → Waits t road s
    → WasSent t (handle_dispatcher s c p).1
unfolding handle_dispatcher
dispatcher-WasSent t road s c p d e k h =
    rw (d, e)
      (serve_roads-WasSent t road (record s { dispatchers = update s.dispatchers c (some p) }) c
        p.roads k h)

pub dispatcher-IsPending :
    (t : Ticket) (road : ℕ) (s : Server) (c : ℕ) (p : IAmDispatcher)
    → Waits t road s
    → IsPending t road (handle_dispatcher s c p)
unfolding handle_dispatcher
dispatcher-IsPending t road s c p h = elim (Bool-cases (is_some (s.dispatchers c))) [
  | inl x ↦ rw x (inl h)
  | inr x ↦ elim (Bool-cases (is_some (s.cameras c))) [
    | inl y ↦ rw (x, y) (inl h)
    | inr y ↦
        rw (x, y)
          (serve_roads-IsPending t road (record s { dispatchers = update s.dispatchers c (some p) })
            c p.roads h)
  ]
]

pub camera-IsPending :
    (t : Ticket) (road : ℕ) (s : Server) (c : ℕ) (p : IAmCamera)
    → Waits t road s
    → IsPending t road (handle_camera s c p)
unfolding handle_camera
camera-IsPending t road s c p h = elim (Bool-cases (is_some (s.cameras c))) [
  | inl x ↦ rw x (inl h)
  | inr x ↦ elim (Bool-cases (is_some (s.dispatchers c))) [
    | inl y ↦ rw (x, y) (inl h)
    | inr y ↦ rw (x, y) (inl h)
  ]
]

pub want_heartbeat-IsPending :
    (t : Ticket) (road : ℕ) (s : Server) (c : ℕ) (p : WantHeartbeat)
    → Waits t road s
    → IsPending t road (handle_want_heartbeat s c p)
unfolding handle_want_heartbeat
want_heartbeat-IsPending t road s c p h = elim (Bool-cases (p.interval == 0)) [
  | inl x ↦ rw x (inl h)
  | inr x ↦ rw x (inl h)
]

pub deliver-Waits :
    (t new : Ticket) (road : ℕ) (s : Server) (r : ℕ) (d : Option ℕ)
    → Waits t road s
    → IfDone (λ (a : Server × List Effect). Waits t road a.0) (deliver s new r d)
unfolding deliver
deliver-Waits t new road s r none h = elim (Bool-cases (r == road)) [
  | inl x ↦
      let q : road ≡ r = sym (==→eq r road x) in
      rw x (
        Any-front (λ (x : Ticket). x ≡ t) (s.tickets r) (new ∷ [])
          (subst (λ r. Any (λ (x : Ticket). x ≡ t) (s.tickets r)) q h))
  | inr x ↦ rw x h
]
deliver-Waits t new road s r (some d) h = elim (Bool-cases (s.clients d)) [
  | inl x ↦ rw x h
  | inr x ↦ rw x tt
]

pub next_dispatcher-Waits :
    (t : Ticket) (road : ℕ) (s : Server) (r : ℕ)
    → Waits t road s
    → IfDone (λ (a : Option ℕ × Server). Waits t road a.1) (next_dispatcher s r)
unfolding next_dispatcher
next_dispatcher-Waits t road s r h = elim (Option-cases (s.road_dispatchers r)) [
  | inl x ↦ rw (x, next_dispatcher) h
  | inr (b, x) ↦
      rw (x, next_dispatcher)
        (>>=-IfDone (λ a. Unit) (λ (a : Option ℕ × Server). Waits t road a.1) (get b) _
          (whatever (get b)) (λ a u. h))
]
