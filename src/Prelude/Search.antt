-- ===== src/Prelude/Search.antt =====
-- Membership and the first place of an element, as `slices.Contains` and `slices.Index` find them.
use Prim.Native.Nat.{ℕ, zero, suc, ◌<◌}
use mathlib.Core.Path.{◌≡◌, refl}
use mathlib.Core.List.{List, [], ◌∷◌, ◌++◌}
use mathlib.Core.Option.{Option, none, some}
use mathlib.Core.Bool.{Bool, true, false, ◌||◌}
use native.Mathlib.Omega.{arith}
use protohackers_go.Prelude.Tests.{Eq, ◌==◌, ==→eq, ==_sym_false, if◌then◌else◌}
use protohackers_go.Prelude.Lists.{length, erase_idx}

module _ {ℓ} {A : Type ℓ} ⦃e : Eq A⦄ where
  -- `slices.Contains` and `slices.Index`; -1 is `none`.
  unfoldable pub contains : List A → A → Bool
  contains [] a = false
  contains (x ∷ xs) a = x == a || contains xs a

  unfoldable pub index_of : List A → A → Option ℕ
  index_of [] a = none
  index_of (x ∷ xs) a =
      let rest : Option ℕ = elim (index_of xs a) [ none ↦ none | some i ↦ some (suc i) ] in
      if x == a then some 0 else rest

  pub contains-append :
      (xs ys : List A) (a : A) → contains (xs ++ ys) a ≡ (contains xs a || contains ys a)
  unfolding contains
  contains-append [] ys a = refl
  contains-append (x ∷ xs) ys a = ground (arith, contains-append xs ys a)

  -- `slices.Index` finds an element exactly when `slices.Contains` does, and inside the slice.
  pub index_of-none : (xs : List A) (a : A) → index_of xs a ≡ none → contains xs a ≡ false
  unfolding contains index_of
  index_of-none [] a h = refl
  index_of-none (x ∷ xs) a h = ground (arith, index_of-none xs a)

  pub index_of-lt : (xs : List A) (a : A) (i : ℕ) → index_of xs a ≡ some i → i < length xs
  unfolding index_of
  index_of-lt [] a i h = cc
  index_of-lt (x ∷ xs) a zero h = omega arith
  index_of-lt (x ∷ xs) a (suc i) h = ground (arith, index_of-lt xs a i)

  index_of_zero : (x : A) (xs : List A) (a : A) → index_of (x ∷ xs) a ≡ some 0 → (x == a) ≡ true
  unfolding index_of
  index_of_zero x xs a h = ground arith

  pub index_of-some : (xs : List A) (a : A) (i : ℕ) → index_of xs a ≡ some i → contains xs a ≡ true
  unfolding contains index_of
  index_of-some [] a i h = cc
  index_of-some (x ∷ xs) a zero h = ground (arith, index_of_zero x xs a h)
  index_of-some (x ∷ xs) a (suc i) h = ground (arith, index_of-some xs a i)

  -- No element stands in the list twice.
  abbrev pub Distinct : List A → Type 0
  Distinct [] = Unit
  Distinct (x ∷ xs) = (contains xs x ≡ false) × Distinct xs

  pub Distinct-append :
      (xs : List A) (a : A) → Distinct xs → contains xs a ≡ false → Distinct (xs ++ a ∷ [])
  unfolding contains
  Distinct-append [] a d h = (refl, tt)
  Distinct-append (x ∷ xs) a d h = (
    ground (arith, contains-append xs (a ∷ []) x, ==_sym_false x a),
    Distinct-append xs a d.1 (ground arith),
  )

  pub contains-erase_idx_ne :
      (xs : List A) (a b : A) (i : ℕ)
      → index_of xs a ≡ some i
      → (a == b) ≡ false
      → contains (erase_idx xs i) b ≡ contains xs b
  unfolding contains index_of
  contains-erase_idx_ne [] a b i h n = cc
  contains-erase_idx_ne (x ∷ xs) a b zero h n =
      ground (arith, index_of_zero x xs a h, e.test_iff x a, e.test_iff x b, e.test_iff a b)
  contains-erase_idx_ne (x ∷ xs) a b (suc i) h n = ground (arith, contains-erase_idx_ne xs a b i)

  pub contains-erase_idx_le :
      (xs : List A) (b : A) (i : ℕ) → contains xs b ≡ false → contains (erase_idx xs i) b ≡ false
  unfolding contains
  contains-erase_idx_le [] b i h = refl
  contains-erase_idx_le (x ∷ xs) b zero h = ground arith
  contains-erase_idx_le (x ∷ xs) b (suc i) h = ground (arith, contains-erase_idx_le xs b i)

  pub erase_idx-Distinct : (xs : List A) (i : ℕ) → Distinct xs → Distinct (erase_idx xs i)
  erase_idx-Distinct [] i d = tt
  erase_idx-Distinct (x ∷ xs) zero d = d.1
  erase_idx-Distinct (x ∷ xs) (suc i) d =
      (contains-erase_idx_le xs x i d.0, erase_idx-Distinct xs i d.1)

  -- Without a second copy, erasing the element's index removes it.
  pub contains-erase_idx_self :
      (xs : List A) (a : A) (i : ℕ)
      → Distinct xs
      → index_of xs a ≡ some i
      → contains (erase_idx xs i) a ≡ false
  unfolding contains index_of
  contains-erase_idx_self [] a i d h = cc
  contains-erase_idx_self (x ∷ xs) a zero d h = rw (==→eq x a (index_of_zero x xs a h)) at d.0
  contains-erase_idx_self (x ∷ xs) a (suc i) d h =
      ground (arith, contains-erase_idx_self xs a i d.1)
