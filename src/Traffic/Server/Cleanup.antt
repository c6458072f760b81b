-- ===== src/Traffic/Server/Cleanup.antt =====
-- The clean-up of the readings of a plate in `handlingServer` of traffic/traffic.go.
use protohackers_go.Prelude.{
  ◌≡◌, refl, Bool, true, false, List, [], ◌∷◌, arith, if◌then◌else◌, nat_eq, bytes_eq,
}
use protohackers_go.Traffic.Server.Types.{PlateInfo, DayPlates, day_of}
use protohackers_go.Traffic.Server.Sightings.{clean}

-- The readings of the days that no ticket is set for.
unfoldable pub unticketed : DayPlates → List PlateInfo → List PlateInfo
unticketed days [] = []
unticketed days (r ∷ rs) =
    let rest = unticketed days rs in if days (day_of r.timestamp) r.plate then rest else r ∷ rest

clean-kept :
    (days : DayPlates) (skip : Bool) (rs : List PlateInfo)
    → unticketed days (clean days skip rs) ≡ unticketed days rs
unfolding clean unticketed
clean-kept days skip [] = refl
clean-kept days true (r ∷ rs) = ground (arith, clean-kept days false rs)
clean-kept days false (r ∷ rs) = ground (arith, clean-kept days true rs, clean-kept days false rs)

-- The clean-up loses no reading of a day that no ticket is set for, and keeps their order.
pub clean-unticketed :
    (days : DayPlates) (rs : List PlateInfo)
    → unticketed days (clean days false rs) ≡ unticketed days rs
clean-unticketed days rs = clean-kept days false rs

-- After each reading that the clean-up removes it passes over the next one, which so stays even when
-- a ticket is set for its day.
pub clean_passes_over :
    (days : DayPlates) (r next : PlateInfo) (rs : List PlateInfo)
    → days (day_of r.timestamp) r.plate ≡ true
    → clean days false (r ∷ next ∷ rs) ≡ next ∷ clean days false rs
unfolding clean
clean_passes_over days r next rs h = rw h refl
