-- ===== src/Means/Mean.antt =====
-- The mean of means/server.go, computed on the bits, against the mean of integers.
use protohackers_go.Prelude.{
  ℕ, ◌+◌, ◌-◌, ◌*◌, ◌%◌, ◌^◌, ◌≤◌, ◌<◌, ◌≡◌, refl, ap, ◌∙◌, inl, inr, true, false, ◌&&◌, List, [],
  ◌∷◌, arith, if◌then◌else◌, Bool-cases, nat_eq, bytes_eq, length, All,
}
use protohackers_go.Means.{StepTwoData, widen, is_in, totals, average, mean}
use protohackers_go.Prelude.Int.{ℤ, pos, quot, int32}
use protohackers_go.Means.Bits.{
  int_le, total, plus, minus, int32_le-int_le, plus-widen, first-bounds, total-⊖, average-bits,
}

-- The prices of the range, as integers.
abbrev pub selected : ℤ → ℤ → List StepTwoData → List ℤ
selected lo hi [] = []
selected lo hi (d ∷ ds) =
    if int_le lo (int32 d.timestamp) && int_le (int32 d.timestamp) hi
    then int32 d.price ∷ selected lo hi ds
    else selected lo hi ds

abbrev pub mean_of : List ℤ → ℤ
mean_of [] = pos 0
mean_of (x ∷ xs) = quot (total (x ∷ xs)) (length (x ∷ xs))

-- The fields hold 32 bits.
abbrev pub Fits : StepTwoData → Type 0
Fits d = (d.timestamp < 2 ^ 32) × (d.price < 2 ^ 32)

is_in-int_le :
    (lo hi : ℕ) (d : StepTwoData)
    → lo < 2 ^ 32
    → hi < 2 ^ 32
    → Fits d
    → (int_le (int32 lo) (int32 d.timestamp) && int_le (int32 d.timestamp) (int32 hi))
      ≡ is_in lo hi d
is_in-int_le lo hi d l h f =
    rw (← int32_le-int_le lo d.timestamp l f.0, ← int32_le-int_le d.timestamp hi f.0 h) refl

module _ (lo hi : ℕ) (l : lo < 2 ^ 32) (h : hi < 2 ^ 32) where
  abbrev picked : List StepTwoData → List ℤ
  picked ds = selected (int32 lo) (int32 hi) ds

  -- A price in the range is the first one picked and is added to the totals, another is neither.
  picked-in :
      (d : StepTwoData) (ds : List StepTwoData) (s c : ℕ)
      → Fits d
      → is_in lo hi d ≡ true
      → (picked (d ∷ ds) ≡ int32 d.price ∷ picked ds)
        × (totals lo hi (d ∷ ds) (s, c)
            ≡ totals lo hi ds ((s + widen d.price) % 2 ^ 64, (c + 1) % 2 ^ 32))
  unfolding totals
  picked-in d ds s c f x = (rw (is_in-int_le lo hi d l h f, x) refl, rw x refl)

  picked-out :
      (d : StepTwoData) (ds : List StepTwoData) (s c : ℕ)
      → Fits d
      → is_in lo hi d ≡ false
      → (picked (d ∷ ds) ≡ picked ds) × (totals lo hi (d ∷ ds) (s, c) ≡ totals lo hi ds (s, c))
  unfolding totals
  picked-out d ds s c f x = (rw (is_in-int_le lo hi d l h f, x) refl, rw x refl)

  totals_sum :
      (ds : List StepTwoData) (s c : ℕ)
      → All Fits ds
      → s < 2 ^ 64
      → (((totals lo hi ds (s, c)).0 + minus (picked ds)) % 2 ^ 64
          ≡ (s + plus (picked ds)) % 2 ^ 64)
        × ((totals lo hi ds (s, c)).0 < 2 ^ 64)
  totals_sum [] s c f b = unfold totals in unfold plus in unfold minus in (omega arith, b)
  totals_sum (d ∷ ds) s c f b = elim (Bool-cases (is_in lo hi d)) [
    | inl x ↦
        let (e, g) = picked-in d ds s c f.0 x in
        let (p, q) =
          totals_sum ds ((s + widen d.price) % 2 ^ 64) ((c + 1) % 2 ^ 32) f.1 (omega arith) in
        let few = first-bounds d.price (picked ds) f.0.1 in
        rw (e, g)
          (elim (plus-widen s d.price (picked ds) f.0.1) [
            | inl k ↦ (omega (arith, p, k, few.0, few.1), q)
            | inr k ↦ (omega (arith, p, k, few.0, few.1), q)
          ])
    | inr x ↦ let (e, g) = picked-out d ds s c f.0 x in rw (e, g) (totals_sum ds s c f.1 b)
  ]

  totals_count :
      (ds : List StepTwoData) (s c : ℕ)
      → All Fits ds
      → c + length (picked ds) < 2 ^ 32
      → (totals lo hi ds (s, c)).1 ≡ c + length (picked ds)
  totals_count [] s c f b = unfold totals in omega arith
  totals_count (d ∷ ds) s c f b = elim (Bool-cases (is_in lo hi d)) [
    | inl x ↦
        let (e, g) = picked-in d ds s c f.0 x in
        let b' : c + 1 + length (picked ds) < 2 ^ 32 = omega (arith, ap length e) in
        let small : (c + 1) % 2 ^ 32 ≡ c + 1 = omega arith in
        rw (e, g, small)
          (omega (arith, totals_count ds ((s + widen d.price) % 2 ^ 64) (c + 1) f.1 b'))
    | inr x ↦
        let (e, g) = picked-out d ds s c f.0 x in rw (e, g) (totals_count ds s c f.1 (rw e at b))
  ]

  picked-bounds :
      (ds : List StepTwoData)
      → All Fits ds
      → (plus (picked ds) ≤ length (picked ds) * (2 ^ 31 - 1))
        × (minus (picked ds) ≤ length (picked ds) * 2 ^ 31)
  picked-bounds [] f = unfold plus in unfold minus in (omega arith, omega arith)
  picked-bounds (d ∷ ds) f =
      let (p, q) = picked-bounds ds f.1 in
      elim (Bool-cases (is_in lo hi d)) [
        | inl x ↦
            let (e, g) = picked-in d ds 0 0 f.0 x in
            let (a, b, i, j) = first-bounds d.price (picked ds) f.0.1 in
            rw e (omega (arith, p, i), omega (arith, q, j))
        | inr x ↦ let (e, g) = picked-out d ds 0 0 f.0 x in rw e (p, q)
      ]

-- The answer to a query is the mean of the prices whose time is in its range, as integers, cut off
-- towards 0, and 0 if there are none, where all times and prices are 32 bits: nothing overflows
-- while fewer than 2 ^ 31 prices are in the range.
pub mean_lem :
    (lo hi : ℕ) (ds : List StepTwoData)
    → lo < 2 ^ 32
    → hi < 2 ^ 32
    → All Fits ds
    → length (selected (int32 lo) (int32 hi) ds) < 2 ^ 31
    → int32 (mean lo hi ds) ≡ mean_of (selected (int32 lo) (int32 hi) ds)
unfolding mean
mean_lem lo hi ds l h f few =
    let (e, b) = totals_sum lo hi l h ds 0 0 f (omega arith) in
    let (p, m) = picked-bounds lo hi l h ds f in
    let c = totals_count lo hi l h ds 0 0 f (omega arith) in
    of_picked (selected (int32 lo) (int32 hi) ds) (totals lo hi ds (0, 0)) few e b p m c
  where
    of_picked :
        (xs : List ℤ) (t : ℕ × ℕ)
        → length xs < 2 ^ 31
        → (t.0 + minus xs) % 2 ^ 64 ≡ (0 + plus xs) % 2 ^ 64
        → t.0 < 2 ^ 64
        → plus xs ≤ length xs * (2 ^ 31 - 1)
        → minus xs ≤ length xs * 2 ^ 31
        → t.1 ≡ 0 + length xs
        → int32 (average t) ≡ mean_of xs
    of_picked [] (sum, k) few e b p m c = rw c (unfold int32 in refl)
    of_picked (x ∷ xs) (sum, k) few e b p m c =
        let count : k ≡ length (x ∷ xs) = omega arith in
        average-bits sum k (plus (x ∷ xs)) (minus (x ∷ xs)) (omega arith) (omega arith)
          (omega arith) b (omega arith) (omega arith)
        ∙ rw (← total-⊖ (x ∷ xs), count) refl
