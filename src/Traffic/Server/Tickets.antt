-- ===== src/Traffic/Server/Tickets.antt =====
-- How many tickets for a plate and a day `handlingServer` in traffic/traffic.go sends.
use protohackers_go.Prelude.{
  ℕ, zero, suc, ◌+◌, ◌≤◌, ◌≡◌, refl, ap, ◌⊎◌, inl, inr, Bool, true, false, ◌&&◌, List, [], ◌∷◌,
  ◌++◌, arith, leb, Bool-cases, ◌==◌, nat_eq, bytes_eq, ==_refl, ==→eq, Bytes, update,
}
use protohackers_go.Traffic.Packets.{Ticket}
use protohackers_go.Traffic.Server.Types.{
  Effect, write_error, send_ticket, start_heartbeat, stop_heartbeat, ticket_set, DayPlates, Server,
  day_of,
}
use protohackers_go.Traffic.Server.Sightings.{log_days}
use protohackers_go.Traffic.Server.Peers.{serve_road, serve_roads}
use mathlib.Core.List.{map}

-- The ticket is for the plate, and its sightings are on the day or around it.
abbrev pub covers : Bytes → ℕ → Ticket → Bool
covers p d t = t.plate == p && (leb (day_of t.timestamp1) d && leb d (day_of t.timestamp2))

abbrev pub one_if : Bool → ℕ
one_if true = 1
one_if false = 0

-- The tickets for a plate and a day that wait in a queue, and those that are sent.
unfoldable pub waiting_for : Bytes → ℕ → List Ticket → ℕ
waiting_for p d [] = 0
waiting_for p d (t ∷ ts) = one_if (covers p d t) + waiting_for p d ts

unfoldable pub sent_for : Bytes → ℕ → List Effect → ℕ
sent_for p d [] = 0
sent_for p d (send_ticket c t ∷ out) = one_if (covers p d t) + sent_for p d out
sent_for p d (ticket_set q e ∷ out) = sent_for p d out
sent_for p d (write_error c m ∷ out) = sent_for p d out
sent_for p d (start_heartbeat c i ∷ out) = sent_for p d out
sent_for p d (stop_heartbeat c ∷ out) = sent_for p d out

module _ (p : Bytes) (d : ℕ) where
  pub sent_for-append :
      (xs ys : List Effect) → sent_for p d (xs ++ ys) ≡ sent_for p d xs + sent_for p d ys
  unfolding sent_for
  sent_for-append [] ys = omega arith
  sent_for-append (send_ticket c t ∷ out) ys = omega (arith, sent_for-append out ys)
  sent_for-append (ticket_set q e ∷ out) ys = sent_for-append out ys
  sent_for-append (write_error c m ∷ out) ys = sent_for-append out ys
  sent_for-append (start_heartbeat c i ∷ out) ys = sent_for-append out ys
  sent_for-append (stop_heartbeat c ∷ out) ys = sent_for-append out ys

  waiting_for-append :
      (ts us : List Ticket) → waiting_for p d (ts ++ us) ≡ waiting_for p d ts + waiting_for p d us
  unfolding waiting_for
  waiting_for-append [] us = omega arith
  waiting_for-append (t ∷ ts) us = omega (arith, waiting_for-append ts us)

  sent_for-queue :
      (c : ℕ) (ts : List Ticket) → sent_for p d (map (send_ticket c) ts) ≡ waiting_for p d ts
  unfolding sent_for waiting_for
  sent_for-queue c [] = refl
  sent_for-queue c (t ∷ ts) = omega (arith, sent_for-queue c ts)

  pub sent_for-log : (q : Bytes) (e n : ℕ) → sent_for p d (log_days q e n) ≡ 0
  unfolding sent_for log_days
  sent_for-log q e zero = refl
  sent_for-log q e (suc n) = sent_for-log q (e + 1) n

  -- No ticket for the plate and the day waits.
  abbrev pub NoneWaits : (ℕ → List Ticket) → Type 0
  NoneWaits tickets = (r : ℕ) → waiting_for p d (tickets r) ≡ 0

  -- One waits, in the queue of the road `r`.
  abbrev pub OneWaits : (ℕ → List Ticket) → ℕ → Type 0
  OneWaits tickets r =
      (waiting_for p d (tickets r) ≡ 1)
      × ((q : ℕ) → (r == q) ≡ false → waiting_for p d (tickets q) ≡ 0)

  -- How many tickets for the plate and the day can still be sent: none once the day is marked and none
  -- waits; one while the day is not marked and none waits, or while one waits.
  abbrev pub Left : DayPlates → (ℕ → List Ticket) → ℕ → Type 0
  Left days tickets k =
      ((k ≡ 0) × (days d p ≡ true) × NoneWaits tickets)
      ⊎ ((k ≡ 1) × (days d p ≡ false) × NoneWaits tickets)
      ⊎ ((k ≡ 1) × (days d p ≡ true) × ((r : ℕ) × OneWaits tickets r))

  -- What is sent is taken from what was left.
  abbrev pub Spends : Server → Server × List Effect → Type 0
  Spends s a =
      (k : ℕ)
      → Left s.day_plates s.tickets k
      → (l : ℕ) × Left a.0.day_plates a.0.tickets l × (sent_for p d a.1 + l ≤ k)

  pub Spends-append :
      (s : Server) (b e : Server × List Effect)
      → Spends s b
      → Spends b.0 e
      → Spends s (e.0, b.1 ++ e.1)
  Spends-append s b e h g k left =
      let (l, left', n) = h k left in
      let (m, left'', n') = g l left' in (m, left'', omega (arith, sent_for-append b.1 e.1, n, n'))

  pub quiet-Spends :
      (s : Server) (a : Server × List Effect)
      → sent_for p d a.1 ≡ 0
      → a.0.day_plates ≡ s.day_plates
      → a.0.tickets ≡ s.tickets
      → Spends s a
  quiet-Spends s a z e f k left = (k, rw (e, f) left, omega (arith, z))

  -- A queue that is sent is empty afterwards.
  none_behind :
      (tickets : ℕ → List Ticket) (road r : ℕ)
      → ((road == r) ≡ false → waiting_for p d (tickets r) ≡ 0)
      → waiting_for p d (update tickets road [] r) ≡ 0
  unfolding waiting_for
  none_behind tickets road r h = elim (Bool-cases (road == r)) [
    | inl x ↦ rw x refl
    | inr x ↦ rw x (h x)
  ]

  serve_road-Spends : (s : Server) (c road : ℕ) → Spends s (serve_road s c road)
  unfolding serve_road
  serve_road-Spends s c road k (inl (z, m, free)) = (
    0,
    inl (refl, m, λ r. none_behind s.tickets road r (λ x. free r)),
    omega (arith, sent_for-queue c (s.tickets road), free road),
  )
  serve_road-Spends s c road k (inr (inl (z, m, free))) = (
    1,
    inr (inl (refl, m, λ r. none_behind s.tickets road r (λ x. free r))),
    omega (arith, sent_for-queue c (s.tickets road), free road, z),
  )
  serve_road-Spends s c road k (inr (inr (z, m, (r, (one, others))))) =
      let sent = sent_for-queue c (s.tickets road) in
      elim (Bool-cases (road == r)) [
        | inl x ↦
            let same : road ≡ r = ==→eq road r x in
            (
              0,
              inl (refl, m, λ q. none_behind s.tickets road q (λ y. others q (rw (← same) y))),
              omega (arith, sent, ap (λ r. waiting_for p d (s.tickets r)) same, one, z),
            )
        | inr x ↦
            let other : (r == road) ≡ false = ground arith in
            (
              1,
              inr (
                  inr (
                    refl,
                    m,
                    (r, (rw x one, λ q y. none_behind s.tickets road q (λ w. others q y))),
                  )),
              omega (arith, sent, others road other, z),
            )
      ]

  pub serve_roads-Spends : (s : Server) (c : ℕ) (roads : List ℕ) → Spends s (serve_roads s c roads)
  unfolding serve_roads
  serve_roads-Spends s c [] k left = (k, left, unfold sent_for in omega arith)
  serve_roads-Spends s c (road ∷ roads) k left =
      Spends-append s (serve_road s c road) (serve_roads (serve_road s c road).0 c roads)
        (serve_road-Spends s c road) (serve_roads-Spends (serve_road s c road).0 c roads) k left

  -- A ticket that goes out at once, or to the queue of a road.
  waiting_for-last :
      (ts : List Ticket) (t : Ticket)
      → waiting_for p d (ts ++ t ∷ []) ≡ waiting_for p d ts + one_if (covers p d t)
  unfolding waiting_for
  waiting_for-last ts t = omega (arith, waiting_for-append ts (t ∷ []))

  pub enqueue-other :
      (tickets : ℕ → List Ticket) (road : ℕ) (t : Ticket) (r : ℕ)
      → covers p d t ≡ false
      → waiting_for p d (update tickets road (tickets road ++ t ∷ []) r)
        ≡ waiting_for p d (tickets r)
  enqueue-other tickets road t r h = elim (Bool-cases (road == r)) [
    | inl x ↦
        let last = waiting_for-last (tickets road) t in
        rw (x, ← ==→eq road r x) (omega (arith, rw h at last))
    | inr x ↦ rw x refl
  ]

  pub enqueue-first :
      (tickets : ℕ → List Ticket) (road : ℕ) (t : Ticket)
      → covers p d t ≡ true
      → NoneWaits tickets
      → OneWaits (update tickets road (tickets road ++ t ∷ [])) road
  enqueue-first tickets road t h free =
      let last = waiting_for-last (tickets road) t in
      (rw (==_refl road) (omega (arith, rw h at last, free road)), λ q x. rw x (free q))
