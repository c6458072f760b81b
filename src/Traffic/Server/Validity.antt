-- ===== src/Traffic/Server/Validity.antt =====
-- The tickets that `handlingServer` in traffic/traffic.go makes of two sightings.
use protohackers_go.Prelude.{
  ◌<◌, ◌≡◌, ◌≢◌, true, false, Option, none, some, List, All, Any, nat_eq, bytes_eq,
}
use protohackers_go.Traffic.Packets.{IAmCamera}
use protohackers_go.Traffic.Server.Types.{Float32, PlateInfo, DayPlates}
use protohackers_go.Traffic.Server.Sightings.{Pair, order, did_receive_ticket, speed}

-- What a ticket for the pair states: a later sighting of the plate on the same road at another mile,
-- faster than the camera's limit, on days without a ticket.
pub record IsOffence (fl : Float32) (days : DayPlates) (cam : IAmCamera) (new : PlateInfo)
    (pair : Pair) : Type 0 where
  pub later : pair.prev.timestamp < pair.current.timestamp
  pub moved : pair.prev.mile ≢ pair.current.mile
  pub same_road : pair.prev.road ≡ new.road
  pub current_road : pair.current.road ≡ new.road
  pub too_fast : fl.greater (speed fl pair) (fl.from_uint cam.limit) ≡ true
  pub free_days : did_receive_ticket days pair ≡ false

module _ (fl : Float32) where
  -- A search among the sightings before the new one: an old one that makes an offence with it is found
  -- if there is one.
  abbrev pub Finds : DayPlates → IAmCamera → PlateInfo → List PlateInfo → Option Pair → Type 0
  Finds days cam new olds none =
      All (λ (old : PlateInfo). IsOffence fl days cam new (order new old) → ⊥) olds
  Finds days cam new olds (some pair) =
      Any (λ (old : PlateInfo). (pair ≡ order new old) × IsOffence fl days cam new pair) olds
