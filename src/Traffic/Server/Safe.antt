-- ===== src/Traffic/Server/Safe.antt =====
-- The loop of `handlingServer` in traffic/traffic.go does not panic.
use protohackers_go.Prelude.{
  is_some, ℕ, ◌≡◌, refl, ◌∙◌, inl, inr, Bool, true, Option, none, some, List, [], ◌∷◌, ◌++◌, arith,
  ltb, Bool-cases, ◌==◌, nat_eq, bytes_eq, length, update, Outcome, done, panic, Returns,
  >>=-Returns,
}
use protohackers_go.Traffic.Packets.{
  IAmCamera, IAmDispatcher, Plate, Ticket, WantHeartbeat, Packet, camera, dispatcher, error_packet,
  plate_packet, ticket_packet, want_heartbeat, heartbeat,
}
use protohackers_go.Traffic.Balancer.{Balancer}
use protohackers_go.Traffic.Server.Types.{
  Float32, PlateInfo, Message, connected, disconnected, received, nothing, Effect, Server, day_of,
}
use protohackers_go.Traffic.Server.Sightings.{
  Pair, prev_day, current_day, rounds, make_ticket, find_pair, mark_days,
}
use protohackers_go.Traffic.Server.Peers.{
  handle_want_heartbeat, handle_camera, handle_dispatcher, handle_connected, handle_disconnected,
}
use protohackers_go.Traffic.Server.Handle.{
  deliver, issue, clean_up, sight, sight_by, handle_plate, handle_packet, handle, run,
}
use protohackers_go.Traffic.Server.Invariant.{
  IsValid, IsServing, IsFrom, leave_road-IsServing, serve_roads-IsValid, serve_roads-clients,
  next_dispatcher-IsValid,
}

-- A valid state with the same clients.
abbrev IsKept : Server → Server × List Effect → Type 0
IsKept s a = IsValid a.0 × (a.0.clients ≡ s.clients)

-- The step ends without a panic, in a valid state with the same clients.
abbrev IsSafe : Server → Outcome (Server × List Effect) → Type 0
IsSafe s = Returns (IsKept s)

Returns-done :
    (s : Server) (m : Outcome (Server × List Effect))
    → IsSafe s m
    → (a : Server × List Effect) × (m ≡ done a) × IsKept s a
Returns-done s (done a) h = (a, refl, h)
Returns-done s panic h = absurd h

deliver-IsSafe :
    (s : Server) (ticket : Ticket) (road : ℕ) (r : Option ℕ)
    → IsValid s
    → ((d : ℕ) → r ≡ some d → s.clients d ≡ true)
    → IsSafe s (deliver s ticket road r)
unfolding deliver
deliver-IsSafe s ticket road none v h = (record { known = v.known; serving = v.serving }, refl)
deliver-IsSafe s ticket road (some d) v h = rw (h d refl) (v, refl)

want_heartbeat-IsValid :
    (s : Server) (c : ℕ) (p : WantHeartbeat) → IsValid s → IsValid (handle_want_heartbeat s c p).0
unfolding handle_want_heartbeat
want_heartbeat-IsValid s c p v = elim (Bool-cases (p.interval == 0)) [
  | inl x ↦ rw x (record { known = v.known; serving = v.serving })
  | inr x ↦ rw x (record { known = v.known; serving = v.serving })
]

camera-IsValid : (s : Server) (c : ℕ) (p : IAmCamera) → IsValid s → IsValid (handle_camera s c p).0
unfolding handle_camera
camera-IsValid s c p v = elim (Bool-cases (is_some (s.cameras c))) [
  | inl x ↦ rw x v
  | inr x ↦ elim (Bool-cases (is_some (s.dispatchers c))) [
    | inl y ↦ rw (x, y) v
    | inr y ↦ rw (x, y) (record { known = v.known; serving = v.serving })
  ]
]

connected-IsValid : (s : Server) (c : ℕ) → IsValid s → IsValid (handle_connected s c)
unfolding handle_connected
connected-IsValid s c v = record { known = λ d h. ground (arith, v.known d h); serving = v.serving }

-- More dispatchers serve as well as the ones before.
IsServing-mono :
    (ds : ℕ → Option IAmDispatcher) (c : ℕ) (p : IAmDispatcher) (o : Option (Balancer ℕ))
    → IsServing ds o
    → IsServing (update ds c (some p)) o
IsServing-mono ds c p none h = tt
IsServing-mono ds c p (some b) (v, h) = (v, λ d m. ground (arith, h d m))

dispatcher-IsValid :
    (s : Server) (c : ℕ) (p : IAmDispatcher)
    → s.clients c ≡ true
    → IsValid s
    → IsValid (handle_dispatcher s c p).0
unfolding handle_dispatcher
dispatcher-IsValid s c p h v = elim (Bool-cases (is_some (s.dispatchers c))) [
  | inl x ↦ rw x v
  | inr x ↦ elim (Bool-cases (is_some (s.cameras c))) [
    | inl y ↦ rw (x, y) v
    | inr y ↦
        let t : Server = record s { dispatchers = update s.dispatchers c (some p) } in
        let w : IsValid t = record {
          known = λ d k. ground (arith, v.known d, h);
          serving = λ r. IsServing-mono s.dispatchers c p (s.road_dispatchers r) (v.serving r);
        } in
        rw (x, y) (serve_roads-IsValid t c p.roads (ground arith) w)
  ]
]

dispatcher-clients :
    (s : Server) (c : ℕ) (p : IAmDispatcher) → (handle_dispatcher s c p).0.clients ≡ s.clients
unfolding handle_dispatcher
dispatcher-clients s c p =
    let t : Server = record s { dispatchers = update s.dispatchers c (some p) } in
    ground (arith, serve_roads-clients t c p.roads)

disconnected-IsValid : (s : Server) (c : ℕ) → IsValid s → IsValid (handle_disconnected s c)
unfolding handle_disconnected
disconnected-IsValid s c v = elim (Bool-cases (is_some (s.dispatchers c))) [
  | inl x ↦ rw x (record {
    known = λ d k. ground (arith, v.known d);
    serving = λ r. leave_road-IsServing s.dispatchers c (s.road_dispatchers r) (v.serving r);
  })
  | inr x ↦ rw x (record { known = v.known; serving = v.serving })
]

-- The clients after a message.
abbrev pub clients_after : (ℕ → Bool) → ℕ → Message → ℕ → Bool
clients_after clients c connected = update clients c true
clients_after clients c m = clients

-- Each message comes from a client that an earlier message says is connected.
abbrev pub IsTrace : (ℕ → Bool) → List (ℕ × Message) → Type 0
IsTrace clients [] = Unit
IsTrace clients ((c, m) ∷ ms) = IsFrom clients c m × IsTrace (clients_after clients c m) ms

module _ (fl : Float32) where
  issue-IsSafe :
      (s : Server) (cam : IAmCamera) (r : Option Pair) → IsValid s → IsSafe s (issue fl s cam r)
  unfolding issue
  issue-IsSafe s cam none v = (v, refl)
  issue-IsSafe s cam (some pair) v =
      let n = rounds (prev_day pair) (current_day pair) in
      let days = mark_days s.day_plates pair.current.plate (prev_day pair) n in
      let marked : Server = record s { day_plates = days } in
      let w : IsValid marked = record { known = v.known; serving = v.serving } in
      let ((r, t), g, u, q, h) = next_dispatcher-IsValid marked pair.current.road w in
      rw g (
        >>=-Returns (IsKept t) (IsKept s) (deliver t (make_ticket fl cam pair) pair.current.road r)
          _ (deliver-IsSafe t (make_ticket fl cam pair) pair.current.road r u h)
          (λ a (z, k). (z, k ∙ q)))

  sight-IsSafe :
      (s : Server) (cam : IAmCamera) (p : Plate) → IsValid s → IsSafe s (sight fl s cam p)
  unfolding sight clean_up
  sight-IsSafe s cam p v =
      let olds = s.readings p.plate in
      let new : PlateInfo = record {
        plate = p.plate;
        timestamp = p.timestamp;
        road = cam.road;
        mile = cam.mile;
      } in
      let t : Server = record s { readings = update s.readings p.plate (olds ++ new ∷ []) } in
      let w : IsValid t = record { known = v.known; serving = v.serving } in
      elim (Bool-cases (s.day_plates (day_of p.timestamp) p.plate)) [
        | inl x ↦ rw x (v, refl)
        | inr x ↦ elim (Bool-cases (ltb (length (olds ++ new ∷ [])) 2)) [
          | inl y ↦ rw (x, y) (w, refl)
          | inr y ↦
              rw (x, y)
                (>>=-Returns (IsKept t) (IsKept s) _ _
                  (issue-IsSafe t cam (find_pair fl t.day_plates cam new olds) w)
                  (λ a (z, k). (record { known = z.known; serving = z.serving }, k)))
        ]
      ]

  sight_by-IsSafe :
      (s : Server) (c : ℕ) (p : Plate) (cam : Option IAmCamera)
      → IsValid s
      → IsSafe s (sight_by fl s c p cam)
  unfolding sight_by
  sight_by-IsSafe s c p none v = (v, refl)
  sight_by-IsSafe s c p (some cam) v = sight-IsSafe s cam p v

  packet-IsSafe :
      (s : Server) (c : ℕ) (p : Packet)
      → s.clients c ≡ true
      → IsValid s
      → IsSafe s (handle_packet fl s c p)
  unfolding handle_packet handle_plate
  packet-IsSafe s c (want_heartbeat p) h v =
      (want_heartbeat-IsValid s c p v, unfold handle_want_heartbeat in ground arith)
  packet-IsSafe s c (camera p) h v = (camera-IsValid s c p v, unfold handle_camera in ground arith)
  packet-IsSafe s c (dispatcher p) h v = (dispatcher-IsValid s c p h v, dispatcher-clients s c p)
  packet-IsSafe s c (plate_packet p) h v = sight_by-IsSafe s c p (s.cameras c) v
  packet-IsSafe s c (ticket_packet p) h v = (v, refl)
  packet-IsSafe s c (error_packet p) h v = (v, refl)
  packet-IsSafe s c heartbeat h v = (v, refl)

  handle-IsSafe :
      (s : Server) (c : ℕ) (m : Message)
      → IsValid s
      → IsFrom s.clients c m
      → (a : Server × List Effect) × (handle fl s c m ≡ done a)
        × IsValid a.0
        × (a.0.clients ≡ clients_after s.clients c m)
  unfolding handle
  handle-IsSafe s c connected v h =
      ((handle_connected s c, []), refl, connected-IsValid s c v, unfold handle_connected in refl)
  handle-IsSafe s c disconnected v h = (
    (handle_disconnected s c, []),
    refl,
    disconnected-IsValid s c v,
    unfold handle_disconnected in refl,
  )
  handle-IsSafe s c nothing v h = ((s, []), refl, v, refl)
  handle-IsSafe s c (received p) v h =
      let (a, e, (w, k)) = Returns-done s (handle_packet fl s c p) (packet-IsSafe s c p h v) in
      (a, e, w, k)

  -- From a valid state, where each dispatcher is a client and the balancer of each road has
  -- dispatchers only, none twice and its index in range, no run of messages panics (no index out of
  -- range and no write to a client that is not there) if each client connects before its other
  -- messages, and it ends in a valid state.
  pub run-IsSafe :
      (s : Server) (ms : List (ℕ × Message))
      → IsValid s
      → IsTrace s.clients ms
      → (a : Server × List Effect) × (run fl s ms ≡ done a) × IsValid a.0
  unfolding run
  run-IsSafe s [] v h = ((s, []), refl, v)
  run-IsSafe s ((c, m) ∷ ms) v (f, h) =
      let (a, e, w, k) = handle-IsSafe s c m v f in
      let (b, g, u) = run-IsSafe a.0 ms w (rw k h) in ((b.0, a.1 ++ b.1), rw (e, g) refl, u)
