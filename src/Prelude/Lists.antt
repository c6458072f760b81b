-- ===== src/Prelude/Lists.antt =====
-- Lists measured and indexed by native numbers, and the slice operations of Go.
use Prim.Native.Nat.{ℕ, zero, suc, ◌+◌, ◌-◌, ◌≤◌, ◌<◌, min}
use mathlib.Core.Path.{◌≡◌, refl, ap, subst}
use mathlib.Core.Logic.{◌≢◌, ◌⊎◌, inl, inr}
use mathlib.Core.List.{List, [], ◌∷◌, ◌++◌}
use mathlib.Core.Option.{Option, none, some}
use mathlib.Core.Bool.{Bool, true, false}
use native.Mathlib.Omega.{arith}
use protohackers_go.Prelude.Tests.{if◌then◌else◌}

module _ {ℓ} {A : Type ℓ} where
  abbrev pub length : List A → ℕ
  length [] = 0
  length (x ∷ xs) = suc (length xs)

  abbrev pub get_elem? : List A → ℕ → Option A
  get_elem? [] i = none
  get_elem? (x ∷ xs) zero = some x
  get_elem? (x ∷ xs) (suc i) = get_elem? xs i

  abbrev pub take : ℕ → List A → List A
  take zero xs = []
  take (suc n) [] = []
  take (suc n) (x ∷ xs) = x ∷ take n xs

  abbrev pub drop : ℕ → List A → List A
  drop zero xs = xs
  drop (suc n) [] = []
  drop (suc n) (x ∷ xs) = drop n xs

  abbrev pub replicate : ℕ → A → List A
  replicate zero a = []
  replicate (suc n) a = a ∷ replicate n a

  abbrev pub All {κ} : (A → Type κ) → List A → Type κ
  All P [] = Unit
  All P (x ∷ xs) = P x × All P xs

  pub length-append : (xs ys : List A) → length (xs ++ ys) ≡ length xs + length ys
  length-append [] ys = omega arith
  length-append (x ∷ xs) ys = omega (arith, length-append xs ys)

  pub length-take : (n : ℕ) (xs : List A) → length (take n xs) ≡ min n (length xs)
  length-take zero xs = omega arith
  length-take (suc n) [] = omega arith
  length-take (suc n) (x ∷ xs) = omega (arith, length-take n xs)

  pub length-drop : (n : ℕ) (xs : List A) → length (drop n xs) ≡ length xs - n
  length-drop zero xs = omega arith
  length-drop (suc n) [] = omega arith
  length-drop (suc n) (x ∷ xs) = omega (arith, length-drop n xs)

  pub length-replicate : (n : ℕ) (a : A) → length (replicate n a) ≡ n
  length-replicate zero a = refl
  length-replicate (suc n) a = ap suc (length-replicate n a)

  pub take-append : (xs ys : List A) → take (length xs) (xs ++ ys) ≡ xs
  take-append [] ys = refl
  take-append (x ∷ xs) ys = ap (λ t. x ∷ t) (take-append xs ys)

  pub drop-append : (xs ys : List A) → drop (length xs) (xs ++ ys) ≡ ys
  drop-append [] ys = refl
  drop-append (x ∷ xs) ys = drop-append xs ys

  pub take-append-drop : (n : ℕ) (xs : List A) → take n xs ++ drop n xs ≡ xs
  take-append-drop zero xs = refl
  take-append-drop (suc n) [] = refl
  take-append-drop (suc n) (x ∷ xs) = ap (λ t. x ∷ t) (take-append-drop n xs)

  pub take_all : (n : ℕ) (xs : List A) → length xs ≤ n → take n xs ≡ xs
  take_all zero [] h = refl
  take_all zero (x ∷ xs) h = absurd (omega arith)
  take_all (suc n) [] h = refl
  take_all (suc n) (x ∷ xs) h = ap (λ t. x ∷ t) (take_all n xs (omega arith))

  pub drop_all : (n : ℕ) (xs : List A) → length xs ≤ n → drop n xs ≡ []
  drop_all zero [] h = refl
  drop_all zero (x ∷ xs) h = absurd (omega arith)
  drop_all (suc n) [] h = refl
  drop_all (suc n) (x ∷ xs) h = drop_all n xs (omega arith)

  pub length_pos : (xs : List A) → xs ≢ [] → 0 < length xs
  length_pos [] h = absurd (h refl)
  length_pos (x ∷ xs) h = omega arith

  pub List-cases : (xs : List A) → (xs ≡ []) ⊎ ((y : A) × (ys : List A) × (xs ≡ y ∷ ys))
  List-cases [] = inl refl
  List-cases (x ∷ xs) = inr (x, xs, refl)

  -- An index in range splits the list at its element.
  pub split_at :
      (xs : List A) (i : ℕ)
      → i < length xs
      → (x : A) × (get_elem? xs i ≡ some x)
        × (drop i xs ≡ x ∷ drop (suc i) xs)
        × (take (suc i) xs ≡ take i xs ++ x ∷ [])
  split_at [] i h = elim h [ ]
  split_at (x ∷ xs) zero h = (x, refl, refl, refl)
  split_at (x ∷ xs) (suc i) h =
      let (y, g, d, t) = split_at xs i (omega arith) in (y, g, d, ap (λ t. x ∷ t) t)

  pub All-append {κ} : (P : A → Type κ) (xs ys : List A) → All P xs → All P ys → All P (xs ++ ys)
  All-append P [] ys hx hy = hy
  All-append P (x ∷ xs) ys hx hy = (hx.0, All-append P xs ys hx.1 hy)

  pub All-mono {κ ι} :
      (P : A → Type κ) (Q : A → Type ι) (xs : List A) → ((x : A) → P x → Q x) → All P xs → All Q xs
  All-mono P Q [] f h = tt
  All-mono P Q (x ∷ xs) f h = (f x h.0, All-mono P Q xs f h.1)

  pub All-zip {κ ι η} :
      (P : A → Type κ) (Q : A → Type ι) (R : A → Type η) (xs : List A)
      → ((x : A) → P x → Q x → R x)
      → All P xs
      → All Q xs
      → All R xs
  All-zip P Q R [] f h k = tt
  All-zip P Q R (x ∷ xs) f h k = (f x h.0 k.0, All-zip P Q R xs f h.1 k.1)

  -- `append(s[:i], s[i+1:]...)`.
  abbrev pub erase_idx : List A → ℕ → List A
  erase_idx [] i = []
  erase_idx (x ∷ xs) zero = xs
  erase_idx (x ∷ xs) (suc i) = x ∷ erase_idx xs i

  pub erase_idx-All {κ} : (P : A → Type κ) (xs : List A) (i : ℕ) → All P xs → All P (erase_idx xs i)
  erase_idx-All P [] i h = tt
  erase_idx-All P (x ∷ xs) zero h = h.1
  erase_idx-All P (x ∷ xs) (suc i) h = (h.0, erase_idx-All P xs i h.1)

  pub length-erase_idx :
      (xs : List A) (i : ℕ) → i < length xs → length (erase_idx xs i) + 1 ≡ length xs
  length-erase_idx [] i h = elim h [ ]
  length-erase_idx (x ∷ xs) zero h = omega arith
  length-erase_idx (x ∷ xs) (suc i) h = omega (arith, length-erase_idx xs i)

  -- `slices.DeleteFunc` as seen through the slice that it returns.
  unfoldable pub delete_func : (A → Bool) → List A → List A
  delete_func p [] = []
  delete_func p (x ∷ xs) = let rest = delete_func p xs in if p x then rest else x ∷ rest

  pub delete_func-All {κ} :
      (P : A → Type κ) (p : A → Bool) (xs : List A) → All P xs → All P (delete_func p xs)
  unfolding delete_func
  delete_func-All P p [] h = tt
  delete_func-All P p (x ∷ xs) h = ground (arith, delete_func-All P p xs h.1)

module _ {ℓ} {A : Type ℓ} where
  -- `s[i] = v`, inside the slice.
  abbrev pub set : List A → ℕ → A → List A
  set [] i v = []
  set (x ∷ xs) zero v = v ∷ xs
  set (x ∷ xs) (suc i) v = x ∷ set xs i v

  abbrev pub concat : List (List A) → List A
  concat [] = []
  concat (xs ∷ xss) = xs ++ concat xss

module _ {ℓ} {A : Type ℓ} where
  -- `for i, x := range xs { if p(x) { …; break } }`: the first hit and its index.
  unfoldable pub find_first : (A → Bool) → List A → Option (ℕ × A)
  find_first p [] = none
  find_first p (x ∷ xs) =
      let rest : Option (ℕ × A) = elim (find_first p xs) [
        | none ↦ none
        | some (i, y) ↦ some (suc i, y)
      ] in
      if p x then some (0, x) else rest

  pub find_first-some :
      (p : A → Bool) (xs : List A) (i : ℕ) (y : A)
      → find_first p xs ≡ some (i, y)
      → (p y ≡ true) × (get_elem? xs i ≡ some y)
  unfolding find_first
  find_first-some p [] i y h = cc
  find_first-some p (x ∷ xs) zero y h = ground arith
  find_first-some p (x ∷ xs) (suc i) y h = ground (arith, find_first-some p xs i y)

  pub find_first-none :
      (p : A → Bool) (xs : List A) → find_first p xs ≡ none → All (λ (x : A). p x ≡ false) xs
  unfolding find_first
  find_first-none p [] h = tt
  find_first-none p (x ∷ xs) h = ground (arith, find_first-none p xs)

  pub All-get_elem? {κ} :
      (P : A → Type κ) (xs : List A) (i : ℕ) (y : A) → All P xs → get_elem? xs i ≡ some y → P y
  All-get_elem? P [] i y h e = cc
  All-get_elem? P (x ∷ xs) zero y h e = let q : x ≡ y = cc in subst P q h.0
  All-get_elem? P (x ∷ xs) (suc i) y h e = All-get_elem? P xs i y h.1 e

-- Some element has the property.
abbrev pub Any {ℓ} : {A : Type ℓ} → (A → Type 0) → List A → Type 0
Any P [] = ⊥
Any P (x ∷ xs) = P x ⊎ Any P xs

pub append_nil {ℓ} : {A : Type ℓ} (xs : List A) → xs ++ [] ≡ xs
append_nil [] = refl
append_nil (x ∷ xs) = ap (λ ys. x ∷ ys) (append_nil xs)
