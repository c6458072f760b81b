-- ===== src/Traffic/Tests.antt =====
-- The speed daemon of traffic/ on the bytes of two connections.
use protohackers_go.Prelude.{
  true, false, none, update, ℕ, ◌/◌, ◌*◌, ◌%◌, ◌^◌, ◌≡◌, List, [], ◌∷◌, arith, ltb, if◌then◌else◌,
  ◌==◌, nat_eq, done,
}
use protohackers_go.Reader.Conn.{Stream}
use protohackers_go.Traffic.Server.Types.{
  Float32, Server, Effect, Message, connected, received, initial,
}
use protohackers_go.Traffic.Packets.{want_heartbeat}
use protohackers_go.Traffic.Server.Handle.{run}
use protohackers_go.Prelude.Int.{pos}
use protohackers_go.Traffic.Durations.{Float64}
use protohackers_go.Traffic.Server.Invariant.{IsValid}
use protohackers_go.Traffic.Service.{traffic_channel, run-traffic_channel}
use protohackers_go.Server.Tcp.{connection}

-- Whole numbers in place of the floating-point numbers.
abbrev whole : Float32
whole = record {
  F = ℕ;
  from_uint = λ n. n;
  divide = λ a b. a / b;
  multiply = λ a b. a * b;
  greater = λ a b. ltb b a;
  to_uint16 = λ a. a % 2 ^ 16;
}

-- A dispatcher for road 66, and a camera there whose second packet breaks off.
abbrev two_streams : ℕ → Stream
two_streams i =
    if i == 1
    then (0x81 ∷ 1 ∷ []) ∷ (0 ∷ 66 ∷ []) ∷ []
    else (0x80 ∷ 0 ∷ 66 ∷ 0 ∷ 100 ∷ 0 ∷ 60 ∷ []) ∷ (0x20 ∷ 2 ∷ 85 ∷ []) ∷ []

abbrev turns : List ℕ
turns = 0 ∷ 1 ∷ 1 ∷ 0 ∷ 0 ∷ 1 ∷ []

run-traffic_channel_example :
    (a : Server × List Effect) × (run whole initial
        (traffic_channel (connection ∷ connection ∷ []) (λ i s. i == 1) two_streams turns)
      ≡ done a)
    × IsValid a.0
run-traffic_channel_example =
    run-traffic_channel whole (connection ∷ connection ∷ []) (λ i s. i == 1) two_streams turns
      (omega arith)

-- A client asks for heartbeats, and for none.
abbrev asks : List (ℕ × Message)
asks =
    (1, connected)
    ∷ (1, received (want_heartbeat (record { interval = 10 })))
    ∷ (1, received (want_heartbeat (record { interval = 0 })))
    ∷ []

abbrev asked : Server
asked = record {
  clients = update (λ c. false) 1 true;
  heartbeats = update (update (λ c. false) 1 true) 1 false;
  cameras = λ c. none;
  readings = λ p. [];
  dispatchers = λ c. none;
  road_dispatchers = λ r. none;
  tickets = λ r. [];
  day_plates = λ d p. false;
}

-- Tenths, cut off where `float64` rounds.
abbrev tenths : Float64
tenths = record {
  F = ℕ;
  from_uint = λ n. n * 10;
  divide = λ x y. x * 10 / y;
  multiply = λ x y. x * y / 10;
  to_int64 = λ x. pos (x / 10);
}
