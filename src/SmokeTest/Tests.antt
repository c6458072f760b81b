-- ===== src/SmokeTest/Tests.antt =====
-- The echo of smoke_test/server.go.
use protohackers_go.Prelude.{◌≡◌, refl, some, [], ◌∷◌}
use protohackers_go.SmokeTest.{handler}

echoes : handler ((1 ∷ 2 ∷ []) ∷ (3 ∷ []) ∷ []) ≡ some (1 ∷ 2 ∷ 3 ∷ [])
unfolding handler
echoes = refl
