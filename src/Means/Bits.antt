-- ===== src/Means/Bits.antt =====
-- The sums and quotients that means/server.go computes on bits, against those of integers.
use protohackers_go.Prelude.{
  ℕ, zero, suc, ◌+◌, ◌-◌, ◌*◌, ◌/◌, ◌%◌, ◌^◌, ◌≤◌, ◌<◌, ◌≡◌, refl, ◌⊎◌, inl, inr, Bool, true, false,
  List, [], ◌∷◌, arith, ltb, leb, if◌then◌else◌, Bool-cases, nat_eq, bytes_eq,
}
use protohackers_go.Means.{int32_le, widen, average}
use protohackers_go.Prelude.Int.{ℤ, pos, negsuc, neg, ◌⊖◌, ◌+ℤ◌, quot, int32}
use native.Mathlib.Nat.{div-lt_iff_lt-mul}

-- `x <= y` of integers.
abbrev pub int_le : ℤ → ℤ → Bool
int_le (pos m) (pos n) = leb m n
int_le (pos m) (negsuc n) = false
int_le (negsuc m) (pos n) = true
int_le (negsuc m) (negsuc n) = leb n m

abbrev pub total : List ℤ → ℤ
total [] = pos 0
total (x ∷ xs) = x +ℤ total xs

pub int32_le-int_le :
    (x y : ℕ) → x < 2 ^ 32 → y < 2 ^ 32 → int32_le x y ≡ int_le (int32 x) (int32 y)
unfolding int32
int32_le-int_le x y h k = elim (Bool-cases (ltb x (2 ^ 31))) [
  | inl p ↦ elim (Bool-cases (ltb y (2 ^ 31))) [
    | inl q ↦ rw (p, q) (ground arith)
    | inr q ↦ rw (p, q) (ground arith)
  ]
  | inr p ↦ elim (Bool-cases (ltb y (2 ^ 31))) [
    | inl q ↦ rw (p, q) (ground arith)
    | inr q ↦ rw (p, q) (ground arith)
  ]
]

unfoldable pub plus : List ℤ → ℕ
plus [] = 0
plus (pos n ∷ xs) = n + plus xs
plus (negsuc n ∷ xs) = plus xs

unfoldable pub minus : List ℤ → ℕ
minus [] = 0
minus (pos n ∷ xs) = minus xs
minus (negsuc n ∷ xs) = n + 1 + minus xs

pos-+ℤ-⊖ : (n a b : ℕ) → pos n +ℤ (a ⊖ b) ≡ (n + a) ⊖ b
unfolding ◌+ℤ◌ ◌⊖◌
pos-+ℤ-⊖ n a b = ground arith

negsuc-+ℤ-⊖ : (n a b : ℕ) → negsuc n +ℤ (a ⊖ b) ≡ a ⊖ (n + 1 + b)
unfolding ◌+ℤ◌ ◌⊖◌
negsuc-+ℤ-⊖ n a b = ground arith

pub total-⊖ : (xs : List ℤ) → total xs ≡ plus xs ⊖ minus xs
unfolding plus minus
total-⊖ [] = unfold ◌⊖◌ in refl
total-⊖ (pos n ∷ xs) = rw (total-⊖ xs) (pos-+ℤ-⊖ n (plus xs) (minus xs))
total-⊖ (negsuc n ∷ xs) = rw (total-⊖ xs) (negsuc-+ℤ-⊖ n (plus xs) (minus xs))

-- What one price adds to the sum, counted around 2 ^ 64.
pub plus-widen :
    (s p : ℕ) (xs : List ℤ)
    → p < 2 ^ 32
    → (s + widen p + minus (int32 p ∷ xs) + plus xs ≡ s + plus (int32 p ∷ xs) + minus xs)
      ⊎ (s + widen p + minus (int32 p ∷ xs) + plus xs ≡ s + plus (int32 p ∷ xs) + minus xs + 2 ^ 64)
unfolding int32 plus minus
plus-widen s p xs h = elim (Bool-cases (ltb p (2 ^ 31))) [
  | inl x ↦ inl (rw x (ground arith))
  | inr x ↦ inr (rw x (ground arith))
]

pub first-bounds :
    (p : ℕ) (xs : List ℤ)
    → p < 2 ^ 32
    → (plus xs ≤ plus (int32 p ∷ xs))
      × (minus xs ≤ minus (int32 p ∷ xs))
      × (plus (int32 p ∷ xs) ≤ 2 ^ 31 - 1 + plus xs)
      × (minus (int32 p ∷ xs) ≤ 2 ^ 31 + minus xs)
unfolding int32 plus minus
first-bounds p xs h = elim (Bool-cases (ltb p (2 ^ 31))) [
  | inl x ↦ rw x (ground arith)
  | inr x ↦ rw x (ground arith)
]

quot-⊖ : (a b k : ℕ) → quot (a ⊖ b) k ≡ (if leb b a then pos ((a - b) / k) else neg ((b - a) / k))
unfolding ◌⊖◌
quot-⊖ a b k = elim (Bool-cases (leb b a)) [
  | inl x ↦ rw x refl
  | inr x ↦ let e : b - a - 1 + 1 ≡ b - a = ground arith in rw (x, e) refl
]

div_lt : (n k m : ℕ) → 0 < k → n < m * k → n / k < m
div_lt n k m p h = (div-lt_iff_lt-mul p).1 h

-- The bits of `int32(sum / int64(count))` against the quotient, where nothing overflows.
pub average-bits :
    (sum k a b : ℕ)
    → 0 < k
    → k < 2 ^ 31
    → (sum + b) % 2 ^ 64 ≡ a % 2 ^ 64
    → sum < 2 ^ 64
    → a ≤ k * (2 ^ 31 - 1)
    → b ≤ k * 2 ^ 31
    → int32 (average (sum, k)) ≡ quot (a ⊖ b) k
unfolding int32
average-bits sum k a b p q e s u v =
    let positive : ltb 0 k ≡ true = ground arith in
    let small : ltb k (2 ^ 31) ≡ true = ground arith in
    elim (Bool-cases (leb b a)) [
      | inl x ↦
          let same : sum ≡ a - b = ground arith in
          let few : (a - b) / k < 2 ^ 31 = div_lt (a - b) k (2 ^ 31) p (omega arith) in
          let low : ltb (a - b) (2 ^ 63) ≡ true = ground arith in
          rw (quot-⊖ a b k, x, positive, small, same, low) (ground arith)
      | inr x ↦
          let same : sum ≡ 2 ^ 64 - (b - a) = ground arith in
          let back : 2 ^ 64 - (2 ^ 64 - (b - a)) ≡ b - a = ground arith in
          let few : (b - a) / k < 2 ^ 31 + 1 = div_lt (b - a) k (2 ^ 31 + 1) p (ground arith) in
          let high : ltb (2 ^ 64 - (b - a)) (2 ^ 63) ≡ false = ground arith in
          rw (quot-⊖ a b k, x, positive, small, same, high, back) (bits ((b - a) / k) few)
    ]
  where
    bits : (m : ℕ) → m < 2 ^ 31 + 1 → int32 ((2 ^ 64 - m) % 2 ^ 64 % 2 ^ 32) ≡ neg m
    bits zero h = refl
    bits (suc m) h = ground arith
