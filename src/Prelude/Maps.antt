-- ===== src/Prelude/Maps.antt =====
-- A Go map is the function that reads it; a missing key reads as the zero value, or as `none`.
use protohackers_go.Prelude.Tests.{Eq, ◌==◌, if◌then◌else◌}

-- `m[k] = v`.
abbrev pub update {ℓ κ} : {K : Type ℓ} {V : Type κ} ⦃e : Eq K⦄ → (K → V) → K → V → K → V
update m k v j = if k == j then v else m j
