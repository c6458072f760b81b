-- ===== src/Primetime/Tests.antt =====
-- Small numbers for `isPrime` of primetime/server.go.
use protohackers_go.Prelude.{
  ◌≤◌, ◌≡◌, refl, ◌⊎◌, true, false, some, arith, none, ℕ, [], ◌∷◌, codes, if◌then◌else◌,
}
use protohackers_go.Primetime.Handler.{Json}
use protohackers_go.Prelude.Int.{pos, negsuc}
use protohackers_go.Primetime.{is_prime}
use protohackers_go.Primetime.Trial.{IsPrime, HasDivisor, is_prime_lem}

prime : is_prime (pos 13) ≡ some true
unfolding is_prime
prime = refl

composite : is_prime (pos 9) ≡ some false
unfolding is_prime
composite = refl

negative : is_prime (negsuc 6) ≡ some false
unfolding is_prime
negative = refl

is_prime_lem_example :
    ((is_prime (pos 13) ≡ some true) × IsPrime 13)
    ⊎ ((is_prime (pos 13) ≡ some false) × ((13 ≤ 1) ⊎ HasDivisor 13))
is_prime_lem_example = is_prime_lem 13 (omega arith)

-- A request is the one byte of its number; the response is the byte 1 or 0.
abbrev small_json : Json ℕ
small_json = record {
  decode = λ l. elim l [ [] ↦ none | ◌∷◌ n rest ↦ some (codes "isPrime", some n) ];
  as_int = λ n. some (pos n);
  encode = λ v. if v then 1 ∷ [] else 0 ∷ [];
}
