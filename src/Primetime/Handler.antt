-- ===== src/Primetime/Handler.antt =====
-- `Handler` of primetime/server.go, over the lines of a client.
use protohackers_go.Prelude.{
  ℕ, ◌^◌, ◌≤◌, ◌<◌, ◌≡◌, ◌⊎◌, Bool, true, false, Option, none, some, List, [], ◌∷◌, ◌++◌,
  if◌then◌else◌, ◌==◌, nat_eq, bytes_eq, Bytes, codes, read_lines, ◌≢◌,
}
use protohackers_go.Prelude.Int.{ℤ, pos}
use protohackers_go.Primetime.{is_prime}
use protohackers_go.Primetime.Trial.{IsPrime, HasDivisor}

-- What is used of `encoding/json` and of `float64`. A request that does not decode is `none`; `number`
-- is the pointer to the number. `as_int` is the `int` that a number equals, if it equals one.
-- `encode` is the JSON of the response with this `Prime`.
pub record Json (F : Type 0) : Type 0 where
  pub decode : Bytes → Option (Bytes × Option F)
  pub as_int : F → Option ℤ
  pub encode : Bool → Bytes

-- What `handle_step_one` does: an error, or a response written.
pub data Step : Type 0 where
  failed : Step
  responded : Bytes → Step

module _ {F : Type 0} (json : Json F) where
  -- `Prime` of the response. `none` is the end of the fuel of `isPrime`.
  abbrev pub prime_of : Option ℤ → Option Bool
  prime_of none = some false
  prime_of (some n) = is_prime n

  abbrev pub respond : Option Bool → Option Step
  respond none = none
  respond (some prime) = some (responded (json.encode prime))

  unfoldable pub answer : Option (Bytes × Option F) → Option Step
  answer none = some failed
  answer (some (method, none)) = some failed
  answer (some (method, some number)) =
      if method == codes "isPrime" then respond (prime_of (json.as_int number)) else some failed

  unfoldable pub handle_step_one : Bytes → Option Step
  unfolding answer
  handle_step_one request = answer (json.decode request)

  -- A response and its newline, or the last words before the connection is closed.
  abbrev pub write_step : Option Step → Option Bytes → Option Bytes
  write_step none rest = none
  write_step (some failed) rest = some (codes "bye, bye" ++ 10 ∷ [])
  write_step (some (responded s)) none = none
  write_step (some (responded s)) (some rest) = some (s ++ 10 ∷ rest)

  unfoldable pub respond_all : List Bytes → Option Bytes
  unfolding handle_step_one
  respond_all [] = some []
  respond_all (l ∷ ls) = write_step (handle_step_one l) (respond_all ls)

  unfoldable pub handler : Bytes → Option Bytes
  unfolding respond_all read_lines
  handler bytes = respond_all (read_lines bytes)

-- The verdict on a number is right.
abbrev pub Decides : ℕ → Bool → Type 0
Decides n v = ((v ≡ true) × IsPrime n) ⊎ ((v ≡ false) × ((n ≤ 1) ⊎ HasDivisor n))

abbrev pub DecideAll : List ℕ → List Bool → Type 0
DecideAll [] [] = Unit
DecideAll (n ∷ ns) (v ∷ vs) = Decides n v × DecideAll ns vs
DecideAll _ _ = ⊥

module _ {F : Type 0} (json : Json F) where
  -- A line that asks for the number `n`.
  abbrev pub AsksFor : Bytes → ℕ → Type 0
  AsksFor l n =
      (number : F) × (json.decode l ≡ some (codes "isPrime", some number))
      × (json.as_int number ≡ some (pos n))
      × (n < 2 ^ 62)

  abbrev pub AskFor : List Bytes → List ℕ → Type 0
  AskFor [] [] = Unit
  AskFor (l ∷ ls) (n ∷ ns) = AsksFor l n × AskFor ls ns
  AskFor _ _ = ⊥

  -- A line that does not decode, names another method, or has no number.
  abbrev pub IsRefused : Bytes → Type 0
  IsRefused l =
      (json.decode l ≡ none)
      ⊎ ((method : Bytes) × (number : Option F) × (json.decode l ≡ some (method, number))
          × ((method ≢ codes "isPrime") ⊎ (number ≡ none)))

  -- The responses with these verdicts, and what comes behind them.
  abbrev pub replies : List Bool → Bytes → Bytes
  replies [] rest = rest
  replies (v ∷ vs) rest = json.encode v ++ 10 ∷ replies vs rest
