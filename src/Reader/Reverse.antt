-- ===== src/Reader/Reverse.antt =====
-- The loop of ReverseBytes in reader/reader.go.
use protohackers_go.Prelude.{
  ℕ, zero, suc, ◌+◌, ◌-◌, ◌≤◌, ◌≡◌, refl, sym, ap, ◌∙◌, true, false, some, [], ◌∷◌, ◌++◌, arith,
  ltb, nat_eq, bytes_eq, Bytes, length, set, get_elem?, append_nil, length-append,
}
use protohackers_go.Reader.{swap, reverse_from, reverse_bytes}
use mathlib.Core.List.{reverse, append_assoc, reverse-cons, reverse-append}

get_elem?-at : (pre post : Bytes) (x : ℕ) → get_elem? (pre ++ (x ∷ post)) (length pre) ≡ some x
get_elem?-at [] post x = refl
get_elem?-at (p ∷ pre) post x = get_elem?-at pre post x

set-at : (pre post : Bytes) (x v : ℕ) → set (pre ++ (x ∷ post)) (length pre) v ≡ pre ++ (v ∷ post)
set-at [] post x v = refl
set-at (p ∷ pre) post x v = ap (λ t. p ∷ t) (set-at pre post x v)

-- The same at the end of a middle part.
far :
    (pre k post : Bytes) (v w : ℕ) → pre ++ (v ∷ (k ++ (w ∷ post))) ≡ (pre ++ (v ∷ k)) ++ (w ∷ post)
far pre k post v w = sym (append_assoc pre (v ∷ k) (w ∷ post))

far_index : (pre k : Bytes) (v : ℕ) → length (pre ++ (v ∷ k)) ≡ length pre + length k + 1
far_index pre k v = omega (arith, length-append pre (v ∷ k))

get_elem?-far :
    (pre k post : Bytes) (v w : ℕ)
    → get_elem? (pre ++ (v ∷ (k ++ (w ∷ post)))) (length pre + length k + 1) ≡ some w
get_elem?-far pre k post v w =
    rw (far pre k post v w, ← far_index pre k v) (get_elem?-at (pre ++ (v ∷ k)) post w)

set-far :
    (pre k post : Bytes) (v w u : ℕ)
    → set (pre ++ (v ∷ (k ++ (w ∷ post)))) (length pre + length k + 1) u
      ≡ pre ++ (v ∷ (k ++ (u ∷ post)))
set-far pre k post v w u =
    rw (far pre k post v w, far pre k post v u, ← far_index pre k v)
      (set-at (pre ++ (v ∷ k)) post w u)

-- The first byte of the middle part changes places with its last one.
swap-ends :
    (pre k post : Bytes) (x z : ℕ)
    → swap (length pre) (length pre + length k + 1) (pre ++ (x ∷ (k ++ (z ∷ post))))
      ≡ pre ++ (z ∷ (k ++ (x ∷ post)))
swap-ends pre k post x z =
    rw (get_elem?-at pre (k ++ (z ∷ post)) x, get_elem?-far pre k post x z)
      (rw (set-at pre (k ++ (z ∷ post)) x z) (set-far pre k post z z x))

last_of : (y : ℕ) (m : Bytes) → (k : Bytes) × (z : ℕ) × (y ∷ m ≡ k ++ (z ∷ []))
last_of y [] = ([], y, refl)
last_of y (x ∷ m) = let (k, z, e) = last_of x m in (y ∷ k, z, ap (λ t. y ∷ t) e)

reverse-ends : (x z : ℕ) (k : Bytes) → reverse (x ∷ (k ++ (z ∷ []))) ≡ (z ∷ reverse k) ++ (x ∷ [])
reverse-ends x z k =
    reverse-cons x (k ++ (z ∷ [])) ∙ ap (λ t. t ++ (x ∷ [])) (reverse-append k (z ∷ []))

reverse_from_lem :
    (n : ℕ) (m pre post : Bytes)
    → length m ≤ n
    → reverse_from n (length pre) (length pre + length m - 1) (pre ++ (m ++ post))
      ≡ pre ++ (reverse m ++ post)
unfolding reverse_from
reverse_from_lem zero [] pre post h = refl
reverse_from_lem zero (x ∷ m) pre post h = absurd (omega arith)
reverse_from_lem (suc n) [] pre post h =
    let stop : ltb (length pre) (length pre + 0 - 1) ≡ false = ground arith in rw stop refl
reverse_from_lem (suc n) (x ∷ []) pre post h =
    let stop : ltb (length pre) (length pre + 1 - 1) ≡ false = ground arith in rw stop refl
reverse_from_lem (suc n) (x ∷ y ∷ m) pre post h =
    let (k, z, e) = last_of y m in
    let size : length (y ∷ m) ≡ length k + 1 =
      omega (arith, ap length e, length-append k (z ∷ [])) in
    let j : length pre + length (x ∷ y ∷ m) - 1 ≡ length pre + length k + 1 = omega (arith, size) in
    let go : ltb (length pre) (length pre + length k + 1) ≡ true = ground arith in
    let next : length pre + 1 ≡ length (pre ++ (z ∷ [])) =
      omega (arith, length-append pre (z ∷ [])) in
    let next_j : length pre + length k + 1 - 1 ≡ length (pre ++ (z ∷ [])) + length k - 1 =
      omega (arith, next) in
    let around : (x ∷ y ∷ m) ++ post ≡ x ∷ (k ++ (z ∷ post)) =
      ap (λ t. x ∷ (t ++ post)) e ∙ ap (λ t. x ∷ t) (append_assoc k (z ∷ []) post) in
    let turned : reverse (x ∷ y ∷ m) ++ post ≡ z ∷ (reverse k ++ (x ∷ post)) =
      ap (λ t. reverse (x ∷ t) ++ post) e
      ∙ (ap (λ t. t ++ post) (reverse-ends x z k) ∙ append_assoc (z ∷ reverse k) (x ∷ []) post) in
    let inner = reverse_from_lem n k (pre ++ (z ∷ [])) (x ∷ post) (omega (arith, size)) in
    rw (j, around, go, swap-ends pre k post x z, next_j, next)
      (ap
          (λ bs.
            reverse_from n (length (pre ++ (z ∷ []))) (length (pre ++ (z ∷ [])) + length k - 1) bs)
          (sym (append_assoc pre (z ∷ []) (k ++ (x ∷ post))))
        ∙ (inner
            ∙ (append_assoc pre (z ∷ []) (reverse k ++ (x ∷ post))
                ∙ ap (λ t. pre ++ t) (sym turned))))

-- The loop that exchanges the ends of the slice and moves inwards leaves the slice reversed, whatever
-- its length.
pub reverse_bytes-reverse : (bs : Bytes) → reverse_bytes bs ≡ reverse bs
unfolding reverse_bytes
reverse_bytes-reverse bs =
    ap (reverse_from (length bs) 0 (length bs - 1)) (sym (append_nil bs))
    ∙ (ap (λ j. reverse_from (length bs) 0 (j - 1) (bs ++ [])) (sym (ground arith))
        ∙ (reverse_from_lem (length bs) bs [] [] (omega arith) ∙ append_nil (reverse bs)))
