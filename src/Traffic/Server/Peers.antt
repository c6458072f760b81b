-- ===== src/Traffic/Server/Peers.antt =====
-- The cases `connected`, `disconnected`, `*WantHeartbeatPacket`, `*IAmCameraPacket` and
-- `*IAmDispatcherPacket` of `handlingServer` in traffic/traffic.go.
use protohackers_go.Prelude.{
  is_some, codes, ℕ, true, false, Option, none, some, List, [], ◌∷◌, ◌++◌, if◌then◌else◌, ◌==◌,
  nat_eq, bytes_eq, Bytes, update,
}
use protohackers_go.Traffic.Packets.{IAmCamera, IAmDispatcher, WantHeartbeat}
use protohackers_go.Traffic.Balancer.{Balancer, new_balancer, len, add, remove}
use protohackers_go.Traffic.Server.Types.{
  Effect, write_error, send_ticket, start_heartbeat, stop_heartbeat, Server,
}
use mathlib.Core.List.{map}

abbrev pub already_camera : Bytes
already_camera = codes "you already are a camera"

abbrev pub already_dispatcher : Bytes
already_dispatcher = codes "you already are a dispatcher"

unfoldable pub handle_want_heartbeat : Server → ℕ → WantHeartbeat → Server × List Effect
handle_want_heartbeat s c p =
    let stopped = if s.heartbeats c then stop_heartbeat c ∷ [] else [] in
    if p.interval == 0 then (record s { heartbeats = update s.heartbeats c false }, stopped) else (
      record s { heartbeats = update s.heartbeats c true },
      stopped ++ start_heartbeat c p.interval ∷ [],
    )

unfoldable pub handle_camera : Server → ℕ → IAmCamera → Server × List Effect
handle_camera s c p =
    if is_some (s.cameras c)
    then (s, write_error c already_camera ∷ [])
    else if is_some (s.dispatchers c)
    then (s, write_error c already_dispatcher ∷ [])
    else (record s { cameras = update s.cameras c (some p) }, [])

-- `balancer := road_dispatchers[road]`, or a new one.
abbrev pub balancer_of : Option (Balancer ℕ) → Balancer ℕ
balancer_of none = new_balancer
balancer_of (some b) = b

-- One road of a new dispatcher, who gets the tickets that wait for it.
unfoldable pub serve_road : Server → ℕ → ℕ → Server × List Effect
serve_road s c road = (
  record s {
    road_dispatchers =
        update s.road_dispatchers road (some (add (balancer_of (s.road_dispatchers road)) c));
    tickets = update s.tickets road [];
  },
  map (send_ticket c) (s.tickets road),
)

unfoldable pub serve_roads : Server → ℕ → List ℕ → Server × List Effect
serve_roads s c [] = (s, [])
serve_roads s c (road ∷ roads) =
    let (t, out) = serve_road s c road in let (u, out') = serve_roads t c roads in (u, out ++ out')

unfoldable pub handle_dispatcher : Server → ℕ → IAmDispatcher → Server × List Effect
handle_dispatcher s c p =
    if is_some (s.dispatchers c)
    then (s, write_error c already_dispatcher ∷ [])
    else if is_some (s.cameras c)
    then (s, write_error c already_camera ∷ [])
    else serve_roads (record s { dispatchers = update s.dispatchers c (some p) }) c p.roads

unfoldable pub handle_connected : Server → ℕ → Server
handle_connected s c = record s { clients = update s.clients c true }

-- `dispatchers.Remove(...)`, and the deletion of an empty balancer.
unfoldable pub leave_road : ℕ → Option (Balancer ℕ) → Option (Balancer ℕ)
leave_road c none = none
leave_road c (some b) = let b' = remove b c in if len b' == 0 then none else some b'

-- The loop over the roads touches each entry of the map by itself.
unfoldable pub handle_disconnected : Server → ℕ → Server
handle_disconnected s c =
    let gone = is_some (s.dispatchers c) in
    record s {
      cameras = update s.cameras c none;
      dispatchers = if gone then update s.dispatchers c none else s.dispatchers;
      road_dispatchers =
          if gone then (λ road. leave_road c (s.road_dispatchers road)) else s.road_dispatchers;
      heartbeats = update s.heartbeats c false;
    }
