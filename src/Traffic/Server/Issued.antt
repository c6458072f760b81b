-- ===== src/Traffic/Server/Issued.antt =====
-- What a ticket that `handlingServer` in traffic/traffic.go makes does to the days and the queues.
use protohackers_go.Prelude.{
  ℕ, ◌≤◌, ◌≡◌, refl, ◌∙◌, inl, inr, true, false, Option, none, some, List, [], ◌∷◌, ◌++◌, arith,
  Bool-cases, Option-cases, ◌==◌, nat_eq, bytes_eq, ==→eq, Bytes, update, Outcome-cases, done,
}
use protohackers_go.Traffic.Packets.{IAmCamera, Ticket}
use protohackers_go.Traffic.Balancer.{get}
use protohackers_go.Traffic.Server.Types.{Float32, Effect, send_ticket, DayPlates, Server}
use protohackers_go.Traffic.Server.Sightings.{
  Pair, prev_day, current_day, rounds, did_receive_ticket, make_ticket, mark_days, log_days,
}
use protohackers_go.Traffic.Server.Handle.{next_dispatcher, deliver, issue}
use protohackers_go.Traffic.Server.Days.{any_day-false, mark_days-inside, mark_days-outside}
use protohackers_go.Traffic.Server.Once.{next_dispatcher-days}
use protohackers_go.Traffic.Server.Tickets.{
  covers, waiting_for, sent_for, sent_for-append, sent_for-log, NoneWaits, Left, Spends,
  quiet-Spends, enqueue-other, enqueue-first,
}
use mathlib.Core.Path.{subst}

next_dispatcher-tickets :
    (s : Server) (road : ℕ) (r : Option ℕ × Server)
    → next_dispatcher s road ≡ done r
    → r.1.tickets ≡ s.tickets
unfolding next_dispatcher
next_dispatcher-tickets s road r e = elim (Option-cases (s.road_dispatchers road)) [
  | inl x ↦ ground (arith, rw (next_dispatcher, x) at e)
  | inr (b, x) ↦ elim (Outcome-cases (get b)) [
    | inr y ↦ cc (rw (next_dispatcher, x, y) at e)
    | inl (g, y) ↦ ground (arith, rw (next_dispatcher, x, y) at e)
  ]
]

module _ (p : Bytes) (d : ℕ) where
  Left-same :
      (days more : DayPlates) (tickets others : ℕ → List Ticket) (k : ℕ)
      → more d p ≡ days d p
      → ((r : ℕ) → waiting_for p d (others r) ≡ waiting_for p d (tickets r))
      → Left p d days tickets k
      → Left p d more others k
  Left-same days more tickets others k e w (inl (z, m, free)) = inl (z, e ∙ m, λ r. w r ∙ free r)
  Left-same days more tickets others k e w (inr (inl (z, m, free))) =
      inr (inl (z, e ∙ m, λ r. w r ∙ free r))
  Left-same days more tickets others k e w (inr (inr (z, m, (r, (one, rest))))) =
      inr (inr (z, e ∙ m, (r, (w r ∙ one, λ q x. w q ∙ rest q x))))

  -- While the day is not marked, no ticket waits for it and one is left.
  unmarked :
      (days : DayPlates) (tickets : ℕ → List Ticket) (k : ℕ)
      → days d p ≡ false
      → Left p d days tickets k
      → (k ≡ 1) × NoneWaits p d tickets
  unmarked days tickets k h (inl (z, m, free)) = cc
  unmarked days tickets k h (inr (inl (z, m, free))) = (z, free)
  unmarked days tickets k h (inr (inr (z, m, r))) = cc

  -- The ticket is new to the day, which has just been marked, or it is for other days or another plate.
  module _ (s t : Server) (ticket : Ticket) (same : t.tickets ≡ s.tickets)
      (new : covers p d ticket ≡ true → (s.day_plates d p ≡ false) × (t.day_plates d p ≡ true))
      (old : covers p d ticket ≡ false → t.day_plates d p ≡ s.day_plates d p) where
    sent-Spends : (c : ℕ) → Spends p d s (t, send_ticket c ticket ∷ [])
    unfolding sent_for
    sent-Spends c k left = elim (Bool-cases (covers p d ticket)) [
      | inl x ↦
          let (before, after) = new x in
          let (one, free) = unmarked s.day_plates s.tickets k before left in
          (0, inl (refl, after, rw same free), rw x (omega (arith, one)))
      | inr x ↦ (
        k,
        Left-same s.day_plates t.day_plates s.tickets t.tickets k (old x) (λ r. rw same refl) left,
        rw x (omega arith),
      )
    ]

    queued-Spends :
        (road : ℕ)
        → Spends p d s
            (record t { tickets = update t.tickets road (t.tickets road ++ ticket ∷ []) }, [])
    unfolding sent_for
    queued-Spends road k left = elim (Bool-cases (covers p d ticket)) [
      | inl x ↦
          let (before, after) = new x in
          let (one, free) = unmarked s.day_plates s.tickets k before left in
          (
            1,
            inr (
                inr
                  (refl, after, (road, enqueue-first p d t.tickets road ticket x (rw same free)))),
            omega (arith, one),
          )
      | inr x ↦ (
        k,
        Left-same s.day_plates t.day_plates s.tickets _ k (old x)
            (λ r. enqueue-other p d t.tickets road ticket r x ∙ rw same refl) left,
        omega arith,
      )
    ]

    deliver-Spends :
        (road : ℕ) (r : Option ℕ) (a : Server × List Effect)
        → deliver t ticket road r ≡ done a
        → Spends p d s a
    unfolding deliver
    deliver-Spends road none a e =
        let q : (record t { tickets = update t.tickets road (t.tickets road ++ ticket ∷ []) }, [])
            ≡ a =
          cc in
        subst (Spends p d s) q (queued-Spends road)
    deliver-Spends road (some c) a e = elim (Bool-cases (t.clients c)) [
      | inl x ↦
          let q : (t, send_ticket c ticket ∷ []) ≡ a = cc (rw x at e) in
          subst (Spends p d s) q (sent-Spends c)
      | inr x ↦ cc (rw x at e)
    ]

  module _ (fl : Float32) where
    ticket_new :
        (s : Server) (cam : IAmCamera) (pair : Pair)
        → did_receive_ticket s.day_plates pair ≡ false
        → covers p d (make_ticket fl cam pair) ≡ true
        → (s.day_plates d p ≡ false)
          × (mark_days s.day_plates pair.current.plate
                (prev_day pair)
                (rounds (prev_day pair) (current_day pair))
                d
                p
              ≡ true)
    unfolding did_receive_ticket make_ticket
    ticket_new s cam pair h c =
        let plate = pair.current.plate in
        let n = rounds (prev_day pair) (current_day pair) in
        let is_plate : (plate == p) ≡ true = ground (arith, c) in
        let from : prev_day pair ≤ d = ground (arith, c) in
        let to : d ≤ current_day pair = ground (arith, c) in
        let before = any_day-false s.day_plates plate (prev_day pair) n d h from (omega arith) in
        let after = mark_days-inside s.day_plates plate (prev_day pair) n d from (omega arith) in
        let same : plate ≡ p = ==→eq plate p is_plate in
        (
          subst (λ q. s.day_plates d q ≡ false) same before,
          subst (λ q. mark_days s.day_plates plate (prev_day pair) n d q ≡ true) same after,
        )

    ticket_old :
        (s : Server) (cam : IAmCamera) (pair : Pair)
        → covers p d (make_ticket fl cam pair) ≡ false
        → mark_days s.day_plates pair.current.plate
            (prev_day pair)
            (rounds (prev_day pair) (current_day pair))
            d
            p
          ≡ s.day_plates d p
    unfolding make_ticket
    ticket_old s cam pair c =
        mark_days-outside s.day_plates pair.current.plate (prev_day pair)
          (rounds (prev_day pair) (current_day pair)) d p (ground (arith, c))

    pub issue-Spends :
        (s : Server) (cam : IAmCamera) (r : Option Pair) (a : Server × List Effect)
        → ((pair : Pair) → r ≡ some pair → did_receive_ticket s.day_plates pair ≡ false)
        → issue fl s cam r ≡ done a
        → Spends p d s a
    unfolding issue did_receive_ticket
    issue-Spends s cam none a h e =
        let q : (s, []) ≡ a = cc in
        subst (Spends p d s) q (quiet-Spends p d s (s, []) (unfold sent_for in refl) refl refl)
    issue-Spends s cam (some pair) a h e =
        let plate = pair.current.plate in
        let n = rounds (prev_day pair) (current_day pair) in
        let first = prev_day pair in
        let marked : Server = record s { day_plates = mark_days s.day_plates plate first n } in
        let ticket = make_ticket fl cam pair in
        elim (Outcome-cases (next_dispatcher marked pair.current.road)) [
          | inr x ↦ cc (rw x at e)
          | inl (r, x) ↦ elim (Outcome-cases (deliver r.1 ticket pair.current.road r.0)) [
            | inr y ↦ cc (rw (x, y) at e)
            | inl (b, y) ↦
                let q : (b.0, log_days plate first n ++ b.1) ≡ a = cc (rw (x, y) at e) in
                let days = next_dispatcher-days marked pair.current.road r x in
                let queues = next_dispatcher-tickets marked pair.current.road r x in
                subst (Spends p d s) q (
                  logged s plate first n b (
                    deliver-Spends s r.1 ticket queues
                      (λ c. rw days (ticket_new s cam pair (h pair refl) c))
                      (λ c. rw days (ticket_old s cam pair c)) pair.current.road r.0 b y))
          ]
        ]
      where
        logged :
            (s : Server) (q : Bytes) (e n : ℕ) (b : Server × List Effect)
            → Spends p d s b
            → Spends p d s (b.0, log_days q e n ++ b.1)
        logged s q e n b h k left =
            let (l, left', m) = h k left in
            (
              l,
              left',
              omega (arith, m, sent_for-append p d (log_days q e n) b.1, sent_for-log p d q e n),
            )
