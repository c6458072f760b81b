-- ===== src/Traffic/Balancer/Laws.antt =====
-- What the balancer of traffic/balancer.go promises: no dispatcher twice, no index out of range,
-- and turns in order.
use protohackers_go.Prelude.{
  ℕ, zero, suc, ◌+◌, ◌%◌, ◌<◌, ◌≡◌, refl, sym, ap, ◌∙◌, ◌≢◌, ◌⊎◌, inl, inr, Option, none, some,
  List, [], ◌∷◌, ◌++◌, arith, Bool-cases, Option-cases, Eq, ◌==◌, nat_eq, length, get_elem?, take,
  drop, length-append, length-take, length-drop, take_all, drop_all, split_at, List-cases,
  length_pos, length-erase_idx, index_of, index_of-none, index_of-lt, Distinct, Distinct-append,
  erase_idx-Distinct, Outcome, done, ◌>>=◌,
}
use protohackers_go.Traffic.Balancer.{Balancer, new_balancer, len, get, add, remove, remove_at}
use mathlib.Core.List.{map, append-nil, append_assoc}
use native.Mathlib.Numerals.{add-one}
use native.Mathlib.Nat.{mod-eq_of_lt, mod-lt, mod_self}
use native.Mathlib.Decide.{dec_lt}

-- The index is one of the set's, or the 0 at which `get` starts.
pub record IsValid {ℓ} {A : Type ℓ} ⦃e : Eq A⦄ (b : Balancer A) : Type 0 where
  pub distinct : Distinct b.set
  pub in_range : (b.index ≡ 0) ⊎ (b.index < length b.set)

module _ {ℓ} {A : Type ℓ} where
  -- The abstract view: the dispatchers in the order in which their turns come.
  abbrev pub upcoming : Balancer A → List A
  upcoming b = drop b.index b.set ++ take b.index b.set

  -- `n` calls of `Get`, one after the other.
  unfoldable pub gets : ℕ → Balancer A → Outcome (List (Option A) × Balancer A)
  gets zero b = done ([], b)
  gets (suc n) b = get b >>= λ r. gets n r.1 >>= λ rest. done (r.0 ∷ rest.0, rest.1)

module _ {ℓ} {A : Type ℓ} ⦃e : Eq A⦄ where
  pub new_balancer-IsValid : IsValid (new_balancer {A = A})
  unfolding new_balancer
  new_balancer-IsValid = record { distinct = tt; in_range = inl refl }

  pub add-IsValid : (b : Balancer A) (a : A) → IsValid b → IsValid (add b a)
  unfolding add
  add-IsValid b a v = elim (Option-cases (index_of b.set a)) [
    | inl e ↦
        rw (e, add)
          (record {
            distinct = Distinct-append b.set a v.distinct (index_of-none b.set a e);
            in_range = ground (arith, v.in_range, length-append b.set (a ∷ []));
          })
    | inr (i, e) ↦ rw (e, add) v
  ]

  remove_at-IsValid :
      (b : Balancer A) (i : ℕ) → IsValid b → i < length b.set → IsValid (remove_at b i)
  unfolding remove_at
  remove_at-IsValid b i v h = record {
    distinct = erase_idx-Distinct b.set i v.distinct;
    in_range = ground (arith, length-erase_idx b.set i, v.in_range);
  }

  pub remove-IsValid : (b : Balancer A) (a : A) → IsValid b → IsValid (remove b a)
  unfolding remove len
  remove-IsValid b a v = elim (Bool-cases (len b == 0)) [
    | inl e ↦ rw e v
    | inr n ↦ elim (Option-cases (index_of b.set a)) [
      | inl e ↦ rw (n, e, remove) v
      | inr (i, e) ↦ rw (n, e, remove) (remove_at-IsValid b i v (index_of-lt b.set a i e))
    ]
  ]

  nonempty-in_range : (b : Balancer A) → IsValid b → upcoming b ≢ [] → b.index < length b.set
  nonempty-in_range b v h = elim v.in_range [
    | inr lt ↦ lt
    | inl e ↦ omega (arith, length_pos b.set (λ n. h (rw (e, n))))
  ]

  turn :
      (set : List A) (i : ℕ)
      → i < length set
      → (x : A) × (get_elem? set i ≡ some x)
        × (drop i set ++ take i set ≡ x ∷ (drop (suc i) set ++ take i set))
        × (let j = (i + 1) % length set in
            drop j set ++ take j set ≡ (drop (suc i) set ++ take i set) ++ x ∷ [])
  turn set i h =
      let (x, g, d, t) = split_at set i h in
      (
        x,
        g,
        rw d,
        elim (dec_lt (i + 1) (length set)) [
          | yes lt ↦ rw (mod-eq_of_lt lt, add-one, t) (sym (append_assoc (drop (suc i) set) _ _))
          | no ge ↦
              let last : i + 1 ≡ length set = omega arith in
              rw (last, mod_self, drop_all (suc i) set (omega arith))
                (append-nil set ∙ sym (take_all (suc i) set (omega arith)) ∙ t)
        ],
      )

  pub get_rotates :
      (b : Balancer A)
      → IsValid b
      → (x : A) (xs : List A) → upcoming b ≡ x ∷ xs
      → (b' : Balancer A) × (get b ≡ done (some x, b')) × (upcoming b' ≡ xs ++ x ∷ []) × IsValid b'
  unfolding get
  get_rotates b v x xs h =
      let lt : b.index < length b.set = nonempty-in_range b v (λ e. cc) in
      let (y, g, front, back) = turn b.set b.index lt in
      (
        record b { index = (b.index + 1) % length b.set },
        ground (arith, g, front, lt),
        ground (arith, front, back),
        record { distinct = v.distinct; in_range = inr (mod-lt (b.index + 1) (omega arith)) },
      )

  gets_rotate :
      (xs ys : List A) (b : Balancer A)
      → IsValid b
      → upcoming b ≡ xs ++ ys
      → (b' : Balancer A) × (gets (length xs) b ≡ done (map some xs, b'))
        × (upcoming b' ≡ ys ++ xs)
        × IsValid b'
  unfolding gets
  gets_rotate [] ys b v h = (b, refl, rw append-nil h, v)
  gets_rotate (x ∷ xs) ys b v h =
      let (c, e, u, w) = get_rotates b v x (xs ++ ys) h in
      let (d, f, t, z) = gets_rotate xs (ys ++ x ∷ []) c w (u ∙ append_assoc xs ys (x ∷ [])) in
      (d, rw (e, f), t ∙ append_assoc ys (x ∷ []) xs, z)

  length-upcoming : (b : Balancer A) → length (upcoming b) ≡ len b
  unfolding len
  length-upcoming b =
      length-append (drop b.index b.set) (take b.index b.set)
      ∙ omega (arith, length-drop b.index b.set, length-take b.index b.set)

  -- On a valid balancer `len` calls of `get` in a row never panic, return every dispatcher of the
  -- set, each in its turn, and leave the same turns to come.
  pub full_turn :
      (b : Balancer A)
      → IsValid b
      → (b' : Balancer A) × (gets (len b) b ≡ done (map some (upcoming b), b'))
        × (upcoming b' ≡ upcoming b)
        × IsValid b'
  full_turn b v =
      let (c, e, u, w) = gets_rotate (upcoming b) [] b v (sym (append-nil _)) in
      (c, rw (← length-upcoming b) e, u, w)

  -- On a valid balancer `get` never panics: if the set is empty it answers `none` and changes
  -- nothing, and otherwise it returns the next dispatcher, whose turn moves to the end.
  pub get_lem :
      (b : Balancer A)
      → IsValid b
      → ((len b ≡ 0) × (get b ≡ done (none, b)))
        ⊎ ((x : A) × (xs : List A) × (b' : Balancer A) × (upcoming b ≡ x ∷ xs)
            × (get b ≡ done (some x, b'))
            × (upcoming b' ≡ xs ++ x ∷ [])
            × IsValid b')
  unfolding get
  get_lem b v = elim (List-cases (upcoming b)) [
    | inl e ↦ let z : len b ≡ 0 = sym (length-upcoming b) ∙ ap length e in inl (z, rw z refl)
    | inr (x, xs, e) ↦ let (c, g, u, w) = get_rotates b v x xs e in inr (x, xs, c, e, g, u, w)
  ]
