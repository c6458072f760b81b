-- ===== src/Genpackets/Search.antt =====
-- `slices.BinarySearch` on strings, as genpackets/genpackets.go calls it: on an ascending slice it finds
-- what is there.
use protohackers_go.Prelude.{
  less, less_irrefl, less_antisym, less_below, ℕ, zero, suc, ◌+◌, ◌/◌, ◌≤◌, ◌<◌, ◌≡◌, refl, ap, inl,
  inr, true, false, some, List, [], ◌∷◌, arith, ltb, Bool-cases, Option-cases, ◌==◌, nat_eq,
  bytes_eq, ==_refl, ==→eq, Bytes, length, get_elem?, All, All-get_elem?, contains,
}
use protohackers_go.Genpackets.Source.{is_below, is_at, search_from, binary_search}

-- In ascending order.
abbrev pub IsSorted : List Bytes → Type 0
IsSorted [] = Unit
IsSorted (x ∷ xs) = All (λ y. less y x ≡ false) xs × IsSorted xs

-- What stands below the target stands in front.
is_below_mono :
    (xs : List Bytes) (target : Bytes) (k m : ℕ)
    → IsSorted xs
    → k ≤ m
    → is_below target (get_elem? xs m) ≡ true
    → is_below target (get_elem? xs k) ≡ true
is_below_mono [] target k m h l e = cc
is_below_mono (x ∷ xs) target zero zero h l e = e
is_below_mono (x ∷ xs) target (suc k) zero h l e = absurd (omega arith)
is_below_mono (x ∷ xs) target (suc k) (suc m) h l e =
    is_below_mono xs target k m h.1 (omega arith) e
is_below_mono (x ∷ xs) target zero (suc m) h l e = elim (Option-cases (get_elem? xs m)) [
  | inl end ↦ absurd (let q : false ≡ true = rw end at e in cc)
  | inr (y, f) ↦
      less_below x y target (All-get_elem? (λ y. less y x ≡ false) xs m y h.0 f) (rw f at e)
]

-- The place `r` divides the list at the target.
abbrev Splits : List Bytes → Bytes → ℕ → Type 0
Splits xs target r =
    ((k : ℕ) → k < r → is_below target (get_elem? xs k) ≡ true)
    × ((k : ℕ) → r ≤ k → is_below target (get_elem? xs k) ≡ false)

past : (xs : List Bytes) (t : Bytes) (k : ℕ) → length xs ≤ k → is_below t (get_elem? xs k) ≡ false
past [] t k h = refl
past (x ∷ xs) t zero h = absurd (omega arith)
past (x ∷ xs) t (suc k) h = past xs t k (omega arith)

module _ (xs : List Bytes) (target : Bytes) (sorted : IsSorted xs) where
  below_until :
      (h : ℕ)
      → is_below target (get_elem? xs h) ≡ true
      → (k : ℕ) → k < h + 1
      → is_below target (get_elem? xs k) ≡ true
  below_until h e k l = is_below_mono xs target k h sorted (omega arith) e

  above_from :
      (h : ℕ)
      → is_below target (get_elem? xs h) ≡ false
      → (k : ℕ) → h ≤ k
      → is_below target (get_elem? xs k) ≡ false
  above_from h e k l = elim (Bool-cases (is_below target (get_elem? xs k))) [
    | inl t ↦
        let q : is_below target (get_elem? xs h) ≡ true = is_below_mono xs target h k sorted l t in
        cc
    | inr f ↦ f
  ]

  search_from-Splits :
      (n i j : ℕ)
      → j ≤ i + n
      → i ≤ j
      → ((k : ℕ) → k < i → is_below target (get_elem? xs k) ≡ true)
      → ((k : ℕ) → j ≤ k → is_below target (get_elem? xs k) ≡ false)
      → Splits xs target (search_from n xs target i j)
  unfolding search_from
  search_from-Splits zero i j f l b a = (b, λ k m. a k (omega arith))
  search_from-Splits (suc n) i j f l b a = elim (Bool-cases (ltb i j)) [
    | inr done ↦ rw done (b, λ k m. a k (ground arith))
    | inl more ↦
        let h = (i + j) / 2 in
        let lt : i < j = ground arith in
        elim (Bool-cases (is_below target (get_elem? xs h))) [
          | inl t ↦
              rw (more, t)
                (search_from-Splits n (h + 1) j (omega arith) (omega arith) (below_until h t) a)
          | inr e ↦
              rw (more, e) (search_from-Splits n i h (omega arith) (omega arith) b (above_from h e))
        ]
  ]

contains_at :
    (xs : List Bytes) (t : Bytes) → contains xs t ≡ true → (k : ℕ) × (get_elem? xs k ≡ some t)
unfolding contains
contains_at [] t h = cc
contains_at (x ∷ xs) t h = elim (Bool-cases (x == t)) [
  | inl e ↦ (0, ap some (==→eq x t e))
  | inr e ↦ let (k, g) = contains_at xs t (rw e at h) in (suc k, g)
]

at_contains : (xs : List Bytes) (t : Bytes) (k : ℕ) → get_elem? xs k ≡ some t → contains xs t ≡ true
unfolding contains
at_contains [] t k h = cc
at_contains (x ∷ xs) t zero h = let q : x ≡ t = cc in rw (q, ==_refl t) refl
at_contains (x ∷ xs) t (suc k) h = ground (arith, at_contains xs t k h)

-- A place in front of another is filled when that one is, with no larger element.
in_front :
    (xs : List Bytes) (r k : ℕ) (z : Bytes)
    → IsSorted xs
    → r ≤ k
    → get_elem? xs k ≡ some z
    → (y : Bytes) × (get_elem? xs r ≡ some y) × (less z y ≡ false)
in_front [] r k z h l e = cc
in_front (x ∷ xs) zero zero z h l e = (z, e, less_irrefl z)
in_front (x ∷ xs) zero (suc k) z h l e =
    (x, refl, All-get_elem? (λ y. less y x ≡ false) xs k z h.0 e)
in_front (x ∷ xs) (suc r) zero z h l e = absurd (omega arith)
in_front (x ∷ xs) (suc r) (suc k) z h l e = in_front xs r k z h.1 (omega arith) e

-- If the target is there, it is at the place that divides the list.
at_division :
    (xs : List Bytes) (t : Bytes) (r k : ℕ)
    → IsSorted xs
    → Splits xs t r
    → get_elem? xs k ≡ some t
    → get_elem? xs r ≡ some t
at_division xs t r k sorted d g = elim (Bool-cases (ltb k r)) [
  | inl lt ↦
      let q : is_below t (get_elem? xs k) ≡ true = d.0 k (ground arith) in
      let q' : is_below t (get_elem? xs k) ≡ false = rw g (less_irrefl t) in
      absurd (let no : true ≡ false = cc in cc)
  | inr ge ↦
      let (y, f, le) = in_front xs r k t sorted (ground arith) g in
      let q : less y t ≡ false = rw f at (d.1 r (omega arith)) in
      let same : y ≡ t = less_antisym y t q le in cc
]

is_at-contains :
    (xs : List Bytes) (t : Bytes) (r : ℕ) → is_at t (get_elem? xs r) ≡ true → contains xs t ≡ true
is_at-contains xs t r h = elim (Option-cases (get_elem? xs r)) [
  | inl end ↦ absurd (let q : false ≡ true = rw end at h in cc)
  | inr (y, f) ↦ let same : y ≡ t = ==→eq y t (rw f at h) in at_contains xs t r (rw same at f)
]

pub binary_search-contains :
    (xs : List Bytes) (t : Bytes) → IsSorted xs → binary_search xs t ≡ contains xs t
unfolding binary_search
binary_search-contains xs t sorted =
    let r = search_from (length xs) xs t 0 (length xs) in
    let d : Splits xs t r =
      search_from-Splits xs t sorted (length xs) 0 (length xs) (omega arith) (omega arith)
        (λ k l. absurd (omega arith)) (past xs t) in
    elim (Bool-cases (contains xs t)) [
      | inl yes_t ↦
          let (k, g) = contains_at xs t yes_t in
          rw (at_division xs t r k sorted d g, yes_t) (==_refl t)
      | inr no_t ↦ elim (Bool-cases (is_at t (get_elem? xs r))) [
        | inl found ↦ let q : contains xs t ≡ true = is_at-contains xs t r found in cc
        | inr missed ↦ rw (missed, no_t) refl
      ]
    ]
