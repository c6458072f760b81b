-- ===== src/Traffic/Durations.antt =====
-- The operations on `float64` in `handleHeartbeath` of traffic/traffic.go, and how long its intervals are.
use protohackers_go.Prelude.{ℕ, ◌*◌, ◌≤◌, ◌<◌, ◌^◌, ◌≡◌, arith, nat_eq, bytes_eq}
use protohackers_go.Prelude.Int.{ℤ, pos}
use mathlib.Core.Path.{subst}

-- The type, the conversion of a whole number (so also a literal that is one), the quotient, the product,
-- and the conversion to an `int64`.
pub record Float64 : Type 1 where
  pub F : Type 0
  pub from_uint : ℕ → F
  pub divide : F → F → F
  pub multiply : F → F → F
  pub to_int64 : F → ℤ

-- `time.Second`, in nanoseconds.
abbrev pub second : ℕ
second = 1000000000

-- `time.Duration(float64(interval) / 10.0 * float64(time.Second))`.
unfoldable pub duration : Float64 → ℕ → ℤ
duration fl interval =
    let seconds = fl.divide (fl.from_uint interval) (fl.from_uint 10) in
    fl.to_int64 (fl.multiply seconds (fl.from_uint second))

-- What IEEE 754 says of these operations: they round to the nearest number and so keep the order; the
-- product for the interval 1 and that for 2 ^ 32 have no error; and Go's conversion of a number that an
-- `int64` has room for cuts off its fraction.
pub record IsFloat64 (fl : Float64) : Type 1 where
  pub le : fl.F → fl.F → Type 0
  pub le_trans : (x y z : fl.F) → le x y → le y z → le x z
  pub from_uint-le : (m n : ℕ) → m ≤ n → le (fl.from_uint m) (fl.from_uint n)
  pub divide-le :
      (x y : fl.F) → le x y → le (fl.divide x (fl.from_uint 10)) (fl.divide y (fl.from_uint 10))
  pub multiply-le :
      (x y : fl.F)
      → le x y
      → le (fl.multiply x (fl.from_uint second)) (fl.multiply y (fl.from_uint second))
  pub tenth :
      fl.multiply (fl.divide (fl.from_uint 1) (fl.from_uint 10)) (fl.from_uint second)
      ≡ fl.from_uint (10 ^ 8)
  pub longest :
      fl.multiply (fl.divide (fl.from_uint (2 ^ 32)) (fl.from_uint 10)) (fl.from_uint second)
      ≡ fl.from_uint (2 ^ 32 * 10 ^ 8)
  pub cuts_off :
      (x : fl.F) (n : ℕ)
      → le (fl.from_uint n) x
      → le x (fl.from_uint (2 ^ 62))
      → (m : ℕ) × (fl.to_int64 x ≡ pos m) × (n ≤ m)

-- An interval that is not 0 is a tenth of a second at least.
pub duration-tenth :
    (fl : Float64) (ieee : IsFloat64 fl) (i : ℕ)
    → 0 < i
    → i < 2 ^ 32
    → (m : ℕ) × (duration fl i ≡ pos m) × (10 ^ 8 ≤ m)
unfolding duration
duration-tenth fl ieee i h k =
    let time : (ℕ → fl.F) =
      λ j. fl.multiply (fl.divide (fl.from_uint j) (fl.from_uint 10)) (fl.from_uint second) in
    let grows : ((m n : ℕ) → m ≤ n → ieee.le (time m) (time n)) =
      λ m n l. ieee.multiply-le _ _ (ieee.divide-le _ _ (ieee.from_uint-le m n l)) in
    let low : ieee.le (fl.from_uint (10 ^ 8)) (time i) =
      subst (λ x. ieee.le x (time i)) ieee.tenth (grows 1 i (omega arith)) in
    let high : ieee.le (time i) (fl.from_uint (2 ^ 32 * 10 ^ 8)) =
      subst (λ x. ieee.le (time i) x) ieee.longest (grows i (2 ^ 32) (omega arith)) in
    ieee.cuts_off (time i) (10 ^ 8) low
      (ieee.le_trans _ _ _ high (ieee.from_uint-le (2 ^ 32 * 10 ^ 8) (2 ^ 62) (omega arith)))
