-- ===== src/Traffic/Server/Sending.antt =====
-- No ticket of traffic/traffic.go that waits for a dispatcher is lost.
use protohackers_go.Prelude.{
  ℕ, ◌≡◌, inl, inr, true, Option, none, some, List, [], ◌∷◌, ◌++◌, ltb, Bool-cases, nat_eq,
  bytes_eq, length, Any, contains, update, Outcome, done, panic, ◌>>=◌,
}
use protohackers_go.Traffic.Packets.{
  IAmCamera, IAmDispatcher, Plate, Ticket, Packet, camera, dispatcher, error_packet, plate_packet,
  ticket_packet, want_heartbeat, heartbeat,
}
use protohackers_go.Traffic.Server.Types.{
  Float32, PlateInfo, Message, connected, disconnected, received, nothing, Effect, Server, day_of,
}
use protohackers_go.Traffic.Server.Sightings.{
  Pair, prev_day, current_day, rounds, mark_days, log_days, make_ticket, find_pair,
}
use protohackers_go.Traffic.Server.Peers.{handle_dispatcher, handle_connected, handle_disconnected}
use protohackers_go.Traffic.Server.Handle.{
  next_dispatcher, deliver, issue, clean_up, sight, sight_by, handle_plate, handle_packet, handle,
  run,
}
use protohackers_go.Traffic.Server.Invariant.{IsValid}
use protohackers_go.Traffic.Server.Safe.{IsTrace, run-IsSafe}
use protohackers_go.Traffic.Server.Pending.{
  Waits, IsSending, WasSent, IsPending, IfDone, >>=-IfDone, Any-front, Any-back, whatever,
  next_dispatcher-Waits, deliver-Waits, dispatcher-IsPending, camera-IsPending,
  want_heartbeat-IsPending, dispatcher-WasSent,
}

module _ (fl : Float32) where
  issue-Waits :
      (t : Ticket) (road : ℕ) (s : Server) (cam : IAmCamera) (pair : Option Pair)
      → Waits t road s
      → IfDone (λ (a : Server × List Effect). Waits t road a.0) (issue fl s cam pair)
  unfolding issue
  issue-Waits t road s cam none h = h
  issue-Waits t road s cam (some pair) h =
      let plate = pair.current.plate in
      let n = rounds (prev_day pair) (current_day pair) in
      let marked : Server = record s {
        day_plates = mark_days s.day_plates plate (prev_day pair) n;
      } in
      >>=-IfDone (λ (a : Option ℕ × Server). Waits t road a.1)
        (λ (a : Server × List Effect). Waits t road a.0) (next_dispatcher marked pair.current.road)
        (λ r. deliver r.1 (make_ticket fl cam pair) pair.current.road r.0 >>= λ a.
          done (a.0, log_days plate (prev_day pair) n ++ a.1))
        (next_dispatcher-Waits t road marked pair.current.road h)
        (λ r k.
          >>=-IfDone (λ (a : Server × List Effect). Waits t road a.0)
            (λ (a : Server × List Effect). Waits t road a.0)
            (deliver r.1 (make_ticket fl cam pair) pair.current.road r.0)
            (λ a. done (a.0, log_days plate (prev_day pair) n ++ a.1))
            (deliver-Waits t (make_ticket fl cam pair) road r.1 pair.current.road r.0 k) (λ a w. w))

  sight-Waits :
      (t : Ticket) (road : ℕ) (s : Server) (cam : IAmCamera) (p : Plate)
      → Waits t road s
      → IfDone (λ (a : Server × List Effect). Waits t road a.0) (sight fl s cam p)
  unfolding sight clean_up
  sight-Waits t road s cam p h =
      let olds = s.readings p.plate in
      let new : PlateInfo = record {
        plate = p.plate;
        timestamp = p.timestamp;
        road = cam.road;
        mile = cam.mile;
      } in
      let u : Server = record s { readings = update s.readings p.plate (olds ++ new ∷ []) } in
      elim (Bool-cases (s.day_plates (day_of p.timestamp) p.plate)) [
        | inl x ↦ rw x h
        | inr x ↦ elim (Bool-cases (ltb (length (olds ++ new ∷ [])) 2)) [
          | inl y ↦ rw (x, y) h
          | inr y ↦
              rw (x, y)
                (>>=-IfDone (λ (a : Server × List Effect). Waits t road a.0)
                  (λ (a : Server × List Effect). Waits t road a.0)
                  (issue fl u cam (find_pair fl u.day_plates cam new olds))
                  (λ a. done (clean_up fl p.plate a))
                  (issue-Waits t road u cam (find_pair fl u.day_plates cam new olds) h) (λ a w. w))
        ]
      ]

  kept_waiting :
      (t : Ticket) (road : ℕ) (m : Outcome (Server × List Effect))
      → IfDone (λ (a : Server × List Effect). Waits t road a.0) m
      → IfDone (IsPending t road) m
  kept_waiting t road (done a) h = inl h
  kept_waiting t road panic h = tt

  sight_by-IsPending :
      (t : Ticket) (road : ℕ) (s : Server) (c : ℕ) (p : Plate) (cam : Option IAmCamera)
      → Waits t road s
      → IfDone (IsPending t road) (sight_by fl s c p cam)
  unfolding sight_by
  sight_by-IsPending t road s c p none h = inl h
  sight_by-IsPending t road s c p (some cam) h =
      kept_waiting t road (sight fl s cam p) (sight-Waits t road s cam p h)

  packet-IsPending :
      (t : Ticket) (road : ℕ) (s : Server) (c : ℕ) (p : Packet)
      → Waits t road s
      → IfDone (IsPending t road) (handle_packet fl s c p)
  unfolding handle_packet handle_plate
  packet-IsPending t road s c (want_heartbeat p) h = want_heartbeat-IsPending t road s c p h
  packet-IsPending t road s c (camera p) h = camera-IsPending t road s c p h
  packet-IsPending t road s c (dispatcher p) h = dispatcher-IsPending t road s c p h
  packet-IsPending t road s c (plate_packet p) h = sight_by-IsPending t road s c p (s.cameras c) h
  packet-IsPending t road s c (ticket_packet p) h = inl h
  packet-IsPending t road s c (error_packet p) h = inl h
  packet-IsPending t road s c heartbeat h = inl h

  handle-IsPending :
      (t : Ticket) (road : ℕ) (s : Server) (c : ℕ) (m : Message)
      → Waits t road s
      → IfDone (IsPending t road) (handle fl s c m)
  unfolding handle
  handle-IsPending t road s c connected h = inl (unfold handle_connected in h)
  handle-IsPending t road s c disconnected h = inl (unfold handle_disconnected in h)
  handle-IsPending t road s c (received p) h = packet-IsPending t road s c p h
  handle-IsPending t road s c nothing h = inl h

  after_all :
      (t : Ticket) (road : ℕ) (m : Outcome (Server × List Effect))
      → (f : Server → Outcome (Server × List Effect)) → IfDone (IsPending t road) m
      → ((s : Server) → Waits t road s → IfDone (IsPending t road) (f s))
      → IfDone (IsPending t road) (m >>= λ a. f a.0 >>= λ b. done (b.0, a.1 ++ b.1))
  after_all t road panic f h k = tt
  after_all t road (done a) f (inl w) k =
      >>=-IfDone (IsPending t road) (IsPending t road) (f a.0) _ (k a.0 w)
        (λ b. λ q. elim q [ inl v ↦ inl v | inr v ↦ inr (Any-back (IsSending t) a.1 b.1 v) ])
  after_all t road (done a) f (inr w) k =
      >>=-IfDone (λ b. Unit) (IsPending t road) (f a.0) _ (whatever (f a.0))
        (λ b u. inr (Any-front (IsSending t) a.1 b.1 w))

  run-IfDone :
      (t : Ticket) (road : ℕ) (s : Server) (ms : List (ℕ × Message))
      → Waits t road s
      → IfDone (IsPending t road) (run fl s ms)
  unfolding run
  run-IfDone t road s [] h = inl h
  run-IfDone t road s ((c, m) ∷ ms) h =
      after_all t road (handle fl s c m) (λ u. run fl u ms) (handle-IsPending t road s c m h)
        (λ u w. run-IfDone t road u ms w)

  -- A ticket that waits for a dispatcher of its road is not lost: after any run of messages of
  -- connected clients, which does not panic, it still waits or it was sent to a dispatcher.
  pub run-IsPending :
      (t : Ticket) (road : ℕ) (s : Server) (ms : List (ℕ × Message))
      → IsValid s
      → IsTrace s.clients ms
      → Any (λ (x : Ticket). x ≡ t) (s.tickets road)
      → (a : Server × List Effect) × (run fl s ms ≡ done a) × IsPending t road a
  run-IsPending t road s ms v k h =
      let (a, e, w) = run-IsSafe fl s ms v k in (a, e, rw e at (run-IfDone t road s ms h))

  -- A ticket that waits for a dispatcher of its road is sent at the latest when a client that is
  -- neither a camera nor a dispatcher registers for this road, whatever messages come
  -- before, if they are handled without a panic.
  pub run-WasSent :
      (t : Ticket) (road : ℕ) (s : Server) (ms : List (ℕ × Message)) (a : Server × List Effect)
      (c : ℕ) (p : IAmDispatcher)
      → Any (λ (x : Ticket). x ≡ t) (s.tickets road)
      → run fl s ms ≡ done a
      → a.0.dispatchers c ≡ none
      → a.0.cameras c ≡ none
      → contains p.roads road ≡ true
      → WasSent t (a.1 ++ (handle_dispatcher a.0 c p).1)
  run-WasSent t road s ms a c p h e d k roads = elim (rw e at (run-IfDone t road s ms h)) [
    | inl w ↦
        Any-back (IsSending t) a.1 (handle_dispatcher a.0 c p).1
          (dispatcher-WasSent t road a.0 c p d k roads w)
    | inr w ↦ Any-front (IsSending t) a.1 (handle_dispatcher a.0 c p).1 w
  ]
