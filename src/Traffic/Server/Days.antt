-- ===== src/Traffic/Server/Days.antt =====
-- Looking up and marking days in a row, as the loops of `handlingServer` in traffic/traffic.go do.
use protohackers_go.Prelude.{
  ℕ, zero, suc, ◌+◌, ◌≤◌, ◌<◌, ◌≡◌, refl, ◌∙◌, inl, inr, true, false, ◌&&◌, arith, ltb, leb,
  Bool-cases, ◌==◌, nat_eq, bytes_eq, ==_refl, ==→eq, Bytes,
}
use protohackers_go.Traffic.Server.Types.{DayPlates, mark}
use protohackers_go.Traffic.Server.Sightings.{any_day, mark_days}

-- A day among those that are looked up.
pub any_day-false :
    (days : DayPlates) (p : Bytes) (e n d : ℕ)
    → any_day days p e n ≡ false
    → e ≤ d
    → d < e + n
    → days d p ≡ false
unfolding any_day
any_day-false days p e zero d h l u = absurd (omega arith)
any_day-false days p e (suc n) d h l u = elim (Bool-cases (e == d)) [
  | inl x ↦
      let same : e ≡ d = ==→eq e d x in
      let here : days e p ≡ false = ground arith in rw same at here
  | inr x ↦ any_day-false days p (e + 1) n d (ground arith) (ground arith) (omega arith)
]

-- What is marked stays marked, the days of the ticket are marked, and no others.
mark_days-stays :
    (days : DayPlates) (q : Bytes) (e n d : ℕ) (p : Bytes)
    → days d p ≡ true
    → mark_days days q e n d p ≡ true
unfolding mark_days
mark_days-stays days q e zero d p h = h
mark_days-stays days q e (suc n) d p h =
    mark_days-stays (mark days e q) q (e + 1) n d p (ground (arith, h))

pub mark_days-inside :
    (days : DayPlates) (q : Bytes) (e n d : ℕ) → e ≤ d → d < e + n → mark_days days q e n d q ≡ true
unfolding mark_days
mark_days-inside days q e zero d l u = absurd (omega arith)
mark_days-inside days q e (suc n) d l u = elim (Bool-cases (e == d)) [
  | inl x ↦ mark_days-stays (mark days e q) q (e + 1) n d q (rw x (rw (==_refl q) refl))
  | inr x ↦ mark_days-inside (mark days e q) q (e + 1) n d (ground arith) (omega arith)
]

pub mark_days-outside :
    (days : DayPlates) (q : Bytes) (e n d : ℕ) (p : Bytes)
    → (q == p && (leb e d && ltb d (e + n))) ≡ false
    → mark_days days q e n d p ≡ days d p
unfolding mark_days
mark_days-outside days q e zero d p h = refl
mark_days-outside days q e (suc n) d p h =
    mark_days-outside (mark days e q) q (e + 1) n d p (ground (arith, h)) ∙ ground (arith, h)
