-- ===== src/Traffic/Server/Handle.antt =====
-- The case `*PlatePacket` of `handlingServer` in traffic/traffic.go, and the loop over the messages.
use protohackers_go.Prelude.{
  codes, ℕ, false, Option, none, some, List, [], ◌∷◌, ◌++◌, ltb, if◌then◌else◌, nat_eq, bytes_eq,
  Bytes, length, update, Outcome, done, panic, ◌>>=◌,
}
use protohackers_go.Traffic.Packets.{
  IAmCamera, Plate, Ticket, Packet, camera, dispatcher, plate_packet, want_heartbeat,
}
use protohackers_go.Traffic.Balancer.{get}
use protohackers_go.Traffic.Server.Types.{
  Float32, PlateInfo, Message, connected, disconnected, received, nothing, Effect, write_error,
  send_ticket, Server, day_of,
}
use protohackers_go.Traffic.Server.Sightings.{
  Pair, prev_day, current_day, rounds, make_ticket, find_pair, mark_days, log_days, clean,
}
use protohackers_go.Traffic.Server.Peers.{
  handle_want_heartbeat, handle_camera, handle_dispatcher, handle_connected, handle_disconnected,
}

abbrev pub not_camera : Bytes
not_camera = codes "you must be a camera to send plates"

-- `ok` is false for no balancer and for an empty one; `rd.Get()` may panic.
unfoldable pub next_dispatcher : Server → ℕ → Outcome (Option ℕ × Server)
next_dispatcher s road = elim (s.road_dispatchers road) [
  | none ↦ done (none, s)
  | some b ↦ get b >>= λ r.
      done (r.0, record s { road_dispatchers = update s.road_dispatchers road (some r.1) })
]

-- The ticket goes to the dispatcher, or to the queue of its road. `clients[dispatcher]` may be nil.
unfoldable pub deliver : Server → Ticket → ℕ → Option ℕ → Outcome (Server × List Effect)
deliver s ticket road none =
    done (record s { tickets = update s.tickets road (s.tickets road ++ ticket ∷ []) }, [])
deliver s ticket road (some d) = if s.clients d then done (s, send_ticket d ticket ∷ []) else panic

module _ (fl : Float32) where
  -- A ticket for the pair: its days are marked, and it is delivered.
  unfoldable pub issue : Server → IAmCamera → Option Pair → Outcome (Server × List Effect)
  unfolding make_ticket
  issue s cam none = done (s, [])
  issue s cam (some pair) =
      let plate = pair.current.plate in
      let n = rounds (prev_day pair) (current_day pair) in
      let marked : Server = record s {
        day_plates = mark_days s.day_plates plate (prev_day pair) n;
      } in
      next_dispatcher marked pair.current.road >>= λ r.
      deliver r.1 (make_ticket fl cam pair) pair.current.road r.0 >>= λ a.
      done (a.0, log_days plate (prev_day pair) n ++ a.1)

  unfoldable pub clean_up : Bytes → Server × List Effect → Server × List Effect
  clean_up plate (s, out) = (
    record s { readings = update s.readings plate (clean s.day_plates false (s.readings plate)) },
    out,
  )

  -- A plate seen by a camera.
  unfoldable pub sight : Server → IAmCamera → Plate → Outcome (Server × List Effect)
  unfolding clean_up
  sight s cam p =
      let olds = s.readings p.plate in
      let new : PlateInfo = record {
        plate = p.plate;
        timestamp = p.timestamp;
        road = cam.road;
        mile = cam.mile;
      } in
      let t : Server = record s { readings = update s.readings p.plate (olds ++ new ∷ []) } in
      if s.day_plates (day_of p.timestamp) p.plate
      then done (s, [])
      else if ltb (length (olds ++ new ∷ [])) 2
      then done (t, [])
      else (issue t cam (find_pair fl t.day_plates cam new olds) >>= λ a. done (clean_up p.plate a))

  -- `camera, ok := cameras[...]`, and what follows from it.
  unfoldable pub sight_by : Server → ℕ → Plate → Option IAmCamera → Outcome (Server × List Effect)
  sight_by s c p none = done (s, write_error c not_camera ∷ [])
  sight_by s c p (some cam) = sight s cam p

  unfoldable pub handle_plate : Server → ℕ → Plate → Outcome (Server × List Effect)
  handle_plate s c p = sight_by s c p (s.cameras c)

  unfoldable pub handle_packet : Server → ℕ → Packet → Outcome (Server × List Effect)
  handle_packet s c (want_heartbeat p) = done (handle_want_heartbeat s c p)
  handle_packet s c (camera p) = done (handle_camera s c p)
  handle_packet s c (dispatcher p) = done (handle_dispatcher s c p)
  handle_packet s c (plate_packet p) = handle_plate s c p
  handle_packet s c p = done (s, [])

  -- One round of the loop.
  unfoldable pub handle : Server → ℕ → Message → Outcome (Server × List Effect)
  handle s c (received p) = handle_packet s c p
  handle s c connected = done (handle_connected s c, [])
  handle s c disconnected = done (handle_disconnected s c, [])
  handle s c nothing = done (s, [])

  unfoldable pub run : Server → List (ℕ × Message) → Outcome (Server × List Effect)
  run s [] = done (s, [])
  run s ((c, m) ∷ ms) = handle s c m >>= λ a. run a.0 ms >>= λ b. done (b.0, a.1 ++ b.1)
