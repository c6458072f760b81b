-- ===== src/Traffic/Starts.antt =====
-- Which heartbeats `handlingServer` of traffic/traffic.go starts.
use protohackers_go.Prelude.{◌^◌, ◌≤◌, ℕ, ◌<◌, ◌≡◌, List, ◌∷◌, ◌++◌, nat_eq, bytes_eq, All, done}
use protohackers_go.Prelude.Int.{pos}
use protohackers_go.Traffic.Durations.{Float64, duration}
use protohackers_go.Traffic.Packets.{want_heartbeat}
use protohackers_go.Traffic.Server.Types.{Message, received, Effect, start_heartbeat, Server}
use protohackers_go.Traffic.Heartbeat.{Tick, ctx_done, Beat, handle_heartbeat, Returned}

-- A heartbeat that is started has an interval, a `uint32`.
abbrev IsStart : Effect → Type 0
IsStart (start_heartbeat c i) = (0 < i) × (i < 2 ^ 32)
IsStart e = Unit

abbrev AllStart : List Effect → Type 0
AllStart es = All IsStart es

abbrev Starts : Server × List Effect → Type 0
Starts a = AllStart a.1

-- The heartbeat, if it is one, has an interval of a tenth of a second at least, does not panic, and
-- returns when its context is done.
abbrev pub Beats : Float64 → List Tick → List Tick → Effect → Type 0
Beats float ticks more (start_heartbeat c i) =
    ((m : ℕ) × (duration float i ≡ pos m) × (10 ^ 8 ≤ m))
    × ((out : List Beat) × (handle_heartbeat float i (ticks ++ ctx_done ∷ more) ≡ done out)
        × Returned out)
Beats float ticks more e = Unit

-- The interval of a request for heartbeats is a `uint32`.
abbrev pub IsUint32 : Message → Type 0
IsUint32 (received (want_heartbeat p)) = p.interval < 2 ^ 32
IsUint32 m = Unit
