-- ===== src/Primetime/Trial.antt =====
-- The trial division of primetime/server.go finds the primes.
use protohackers_go.Prelude.{
  ℕ, zero, suc, ◌+◌, ◌*◌, ◌/◌, ◌%◌, ◌^◌, ◌≤◌, ◌<◌, ◌≡◌, refl, sym, ◌∙◌, ◌≢◌, ◌⊎◌, inl, inr, true,
  false, some, arith, ltb, leb, Bool-cases, ◌==◌, nat_eq, bytes_eq,
}
use protohackers_go.Prelude.Int.{pos}
use protohackers_go.Primetime.{square_le, trial, is_prime}
use native.Mathlib.Nat.{mul-le-mul, div-add-mod, mul-mod_left, le_refl}
use mathlib.Core.Path.{subst}

-- A number from 2 on that no smaller one from 2 on divides.
abbrev pub NoDivisor : ℕ → ℕ → Type 0
NoDivisor n i = (d : ℕ) → 2 ≤ d → d < i → n % d ≢ 0

abbrev pub IsPrime : ℕ → Type 0
IsPrime n = (2 ≤ n) × NoDivisor n n

abbrev pub HasDivisor : ℕ → Type 0
HasDivisor n = (d : ℕ) × (2 ≤ d) × (d < n) × (n % d ≡ 0)

square_le_lem : (i n : ℕ) → i ≤ 2 ^ 31 → square_le i n ≡ leb (i * i) n
unfolding square_le
square_le_lem i n h = ground (arith, mul-le-mul h h)

-- Beyond the square root there is no first divisor.
below_two : (e : ℕ) → ltb e 2 ≡ true → e ≤ 1
below_two e h = ground arith

NoDivisor-all : (n i : ℕ) → 2 ≤ n → n < i * i → NoDivisor n i → NoDivisor n n
NoDivisor-all n i two h none_below d two_d lt z =
    let e = n / d in
    let product : d * e ≡ n = omega (arith, div-add-mod n d, z) in
    let divides : n % e ≡ 0 = subst (λ m. m % e ≡ 0) product (mul-mod_left d e) in
    let two_e : 2 ≤ e = cofactor e product in
    elim (Bool-cases (ltb d i)) [
      | inl small ↦ none_below d two_d (ground arith) z
      | inr large ↦ elim (Bool-cases (ltb e i)) [
        | inl small ↦ none_below e two_e (ground arith) divides
        | inr large_e ↦ absurd (too_large e product (ground arith) (ground arith))
      ]
    ]
  where
    cofactor : (e : ℕ) → d * e ≡ n → 2 ≤ e
    cofactor e p = elim (Bool-cases (ltb e 2)) [
      | inl x ↦ absurd (omega (arith, p, lt, mul-le-mul (le_refl d) (below_two e x)))
      | inr x ↦ ground arith
    ]

    too_large : (e : ℕ) → d * e ≡ n → i ≤ d → i ≤ e → ⊥
    too_large e p a b = omega (arith, p, h, mul-le-mul a b)

leb→le : (a b : ℕ) → leb a b ≡ true → a ≤ b
leb→le a b h = ground arith

leb→lt : (a b : ℕ) → leb a b ≡ false → b < a
leb→lt a b h = ground arith

root_lt : (n j : ℕ) → n < 2 ^ 62 → j * j ≤ n → j + 1 ≤ 2 ^ 31
root_lt n j h k = elim (Bool-cases (leb (2 ^ 31) j)) [
  | inl x ↦
      let large : 2 ^ 31 ≤ j = leb→le (2 ^ 31) j x in absurd (omega (arith, mul-le-mul large large))
  | inr x ↦ omega (arith, leb→lt (2 ^ 31) j x)
]

divisor_lt : (n j : ℕ) → 1 ≤ j → (j + 1) * (j + 1) ≤ n → j + 1 < n
divisor_lt n j h k =
    let two : 2 ≤ j + 1 = omega arith in omega (arith, mul-le-mul two (le_refl (j + 1)))

NoDivisor-next : (n i : ℕ) → NoDivisor n i → (n % i == 0) ≡ false → NoDivisor n (i + 1)
NoDivisor-next n i h k d two lt z = elim (Bool-cases (ltb d i)) [
  | inl x ↦ h d two (ground arith) z
  | inr x ↦ let q : d ≡ i = ground arith in absurd (ground (arith, rw q at z))
]

trial_lem :
    (k n j : ℕ)
    → 2 ≤ n
    → n < 2 ^ 62
    → 1 ≤ j
    → j * j ≤ n
    → n < j + 1 + k
    → NoDivisor n (j + 1)
    → ((trial k n (j + 1) ≡ some true) × IsPrime n)
      ⊎ ((trial k n (j + 1) ≡ some false) × HasDivisor n)
unfolding trial
trial_lem zero n j two big one sq fuel free = elim (Bool-cases (ltb j 2)) [
  | inl x ↦ absurd (ground arith)
  | inr x ↦
      let two_j : 2 ≤ j = ground arith in
      let n_j : n ≤ j = omega arith in absurd (omega (arith, mul-le-mul two_j n_j))
]
trial_lem (suc k) n j two big one sq fuel free =
    let small : square_le (j + 1) n ≡ leb ((j + 1) * (j + 1)) n =
      square_le_lem (j + 1) n (root_lt n j big sq) in
    elim (Bool-cases (square_le (j + 1) n)) [
      | inl x ↦
          let le : (j + 1) * (j + 1) ≤ n = leb→le _ n (sym small ∙ x) in
          elim (Bool-cases (n % (j + 1) == 0)) [
            | inl y ↦
                inr (rw (x, y) refl, (j + 1, omega arith, divisor_lt n j one le, ground arith))
            | inr y ↦
                rw (x, y)
                  (trial_lem k n (j + 1) two big (omega arith) le (omega arith)
                    (NoDivisor-next n (j + 1) free y))
          ]
      | inr x ↦
          inl (rw x refl, (two, NoDivisor-all n (j + 1) two (leb→lt _ n (sym small ∙ x)) free))
    ]

-- On every number from 0 on below 2 ^ 62 `isPrime` ends within as many rounds as the number says. It
-- answers `true` on primes, which are 2 or more and divided by none of the numbers from 2 on below
-- them, and `false` on 0, 1 and the numbers that have such a divisor.
pub is_prime_lem :
    (n : ℕ)
    → n < 2 ^ 62
    → ((is_prime (pos n) ≡ some true) × IsPrime n)
      ⊎ ((is_prime (pos n) ≡ some false) × ((n ≤ 1) ⊎ HasDivisor n))
unfolding is_prime
is_prime_lem n big = elim (Bool-cases (leb n 1)) [
  | inl x ↦ inr (rw x refl, inl (leb→le n 1 x))
  | inr x ↦
      let two : 1 < n = leb→lt n 1 x in
      rw x
        (elim (trial_lem n n 1 two big (le_refl 1) (omega arith) (omega arith)
          (λ d a b. absurd (omega arith))) [
            | inl (e, p) ↦ inl (e, p)
            | inr (e, d) ↦ inr (e, inr d)
          ])
]
