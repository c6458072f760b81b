-- ===== src/Prelude/Order.antt =====
-- The order of strings, as `cmp.Less` has it and `slices.Sorted` and `slices.BinarySearch` use it.
use mathlib.Core.Path.{◌≡◌, refl}
use mathlib.Core.Bool.{Bool, true, false, ◌&&◌, ◌||◌}
use mathlib.Core.List.{[], ◌∷◌}
use native.Mathlib.Omega.{arith}
use protohackers_go.Prelude.Tests.{ltb, ◌==◌, nat_eq, bytes_eq, Bytes}

-- `cmp.Less` on strings.
unfoldable pub less : Bytes → Bytes → Bool
less xs [] = false
less [] (y ∷ ys) = true
less (x ∷ xs) (y ∷ ys) = ltb x y || x == y && less xs ys

pub less_irrefl : (xs : Bytes) → less xs xs ≡ false
unfolding less
less_irrefl [] = refl
less_irrefl (x ∷ xs) = ground (arith, less_irrefl xs)

pub less_antisym : (xs ys : Bytes) → less xs ys ≡ false → less ys xs ≡ false → xs ≡ ys
unfolding less
less_antisym [] [] h k = refl
less_antisym [] (y ∷ ys) h k = cc
less_antisym (x ∷ xs) [] h k = cc
less_antisym (x ∷ xs) (y ∷ ys) h k = ground (arith, less_antisym xs ys)

-- xs ≤ ys < zs
pub less_below : (xs ys zs : Bytes) → less ys xs ≡ false → less ys zs ≡ true → less xs zs ≡ true
unfolding less
less_below xs ys [] h k = cc
less_below [] ys (z ∷ zs) h k = refl
less_below (x ∷ xs) [] (z ∷ zs) h k = cc
less_below (x ∷ xs) (y ∷ ys) (z ∷ zs) h k = ground (arith, less_below xs ys zs)

pub less_asym : (xs ys : Bytes) → less xs ys ≡ true → less ys xs ≡ false
unfolding less
less_asym xs [] h = cc
less_asym [] (y ∷ ys) h = refl
less_asym (x ∷ xs) (y ∷ ys) h = ground (arith, less_asym xs ys)
