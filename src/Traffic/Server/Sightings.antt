-- ===== src/Traffic/Server/Sightings.antt =====
-- The search for a pair of sightings that makes a ticket, in the case `*PlatePacket` of
-- `handlingServer` in traffic/traffic.go.
use protohackers_go.Prelude.{
  ℕ, zero, suc, ◌+◌, ◌-◌, ◌*◌, ◌%◌, ◌^◌, Bool, false, not, ◌&&◌, ◌||◌, Option, none, some, List, [],
  ◌∷◌, ltb, if◌then◌else◌, ◌==◌, nat_eq, bytes_eq, Bytes,
}
use protohackers_go.Traffic.Packets.{IAmCamera, Ticket}
use protohackers_go.Traffic.Server.Types.{
  Float32, PlateInfo, Effect, ticket_set, DayPlates, day_of, mark,
}

-- The sightings of a pair by time, and the limit of the camera that sent the newer one.
pub record Pair : Type 0 where
  pub prev : PlateInfo
  pub current : PlateInfo

-- The new sighting counts as the earlier one unless the old one is strictly earlier.
unfoldable pub order : PlateInfo → PlateInfo → Pair
order new old =
    if ltb old.timestamp new.timestamp
    then record { prev = old; current = new }
    else record { prev = new; current = old }

abbrev pub prev_day : Pair → ℕ
prev_day pair = day_of pair.prev.timestamp

abbrev pub current_day : Pair → ℕ
current_day pair = day_of pair.current.timestamp

-- The number of rounds of `for i := from; i <= to; i++`.
abbrev pub rounds : ℕ → ℕ → ℕ
rounds from to = to + 1 - from

-- Whether one of `n` days from `d` on has the plate.
unfoldable pub any_day : DayPlates → Bytes → ℕ → ℕ → Bool
any_day days p d zero = false
any_day days p d (suc n) = days d p || any_day days p (d + 1) n

unfoldable pub did_receive_ticket : DayPlates → Pair → Bool
unfolding any_day
did_receive_ticket days pair =
    any_day days pair.current.plate (prev_day pair) (rounds (prev_day pair) (current_day pair))

unfoldable pub distance : Pair → ℕ
distance pair =
    if ltb pair.prev.mile pair.current.mile
    then pair.current.mile - pair.prev.mile
    else pair.prev.mile - pair.current.mile

-- `current.Timestamp - prev.Timestamp` on `uint32`.
unfoldable pub time_diff : Pair → ℕ
time_diff pair = (pair.current.timestamp + 2 ^ 32 - pair.prev.timestamp) % 2 ^ 32

module _ (fl : Float32) where
  open fl use {F, from_uint, divide, multiply, greater, to_uint16}

  unfoldable pub speed : Pair → F
  unfolding distance time_diff
  speed pair = divide (from_uint (distance pair * 3600 % 2 ^ 32)) (from_uint (time_diff pair))

  -- The guards of one round, in their order: it goes on to the next sighting unless all pass.
  unfoldable pub is_speeding : DayPlates → IAmCamera → Pair → Bool
  is_speeding days cam pair =
      not (did_receive_ticket days pair)
      && (pair.prev.road == pair.current.road
          && (not (distance pair == 0)
              && (not (time_diff pair == 0) && greater (speed pair) (from_uint cam.limit))))

  unfoldable pub make_ticket : IAmCamera → Pair → Ticket
  make_ticket cam pair = record {
    plate = pair.current.plate;
    road = cam.road;
    mile1 = pair.prev.mile;
    timestamp1 = pair.prev.timestamp;
    mile2 = pair.current.mile;
    timestamp2 = pair.current.timestamp;
    speed = to_uint16 (multiply (speed pair) (from_uint 100));
  }

  -- The first old sighting, oldest first, whose pair with the new one makes a ticket.
  unfoldable pub find_pair : DayPlates → IAmCamera → PlateInfo → List PlateInfo → Option Pair
  find_pair days cam new [] = none
  find_pair days cam new (old ∷ olds) =
      let rest = find_pair days cam new olds in
      if is_speeding days cam (order new old) then some (order new old) else rest

-- `for j := from; ...` over `n` days: each is marked, with a line in the log.
unfoldable pub mark_days : DayPlates → Bytes → ℕ → ℕ → DayPlates
mark_days days p d zero = days
mark_days days p d (suc n) = mark_days (mark days d p) p (d + 1) n

unfoldable pub log_days : Bytes → ℕ → ℕ → List Effect
log_days p d zero = []
log_days p d (suc n) = ticket_set p d ∷ log_days p (d + 1) n

-- The clean-up `for i := 0; i < len(readings); i++`. When it removes the reading at `i`, the next one
-- moves to `i` and is passed over; `skip` says that this is the reading passed over.
unfoldable pub clean : DayPlates → Bool → List PlateInfo → List PlateInfo
clean days skip [] = []
clean days skip (r ∷ rs) =
    let hit = days (day_of r.timestamp) r.plate in
    let rest = clean days (not skip && hit) rs in if not skip && hit then rest else r ∷ rest
