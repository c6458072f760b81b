-- ===== src/Traffic/Balancer/Changes.antt =====
-- What `Add` and `Remove` of traffic/balancer.go change.
use protohackers_go.Prelude.{
  ℕ, ◌≡◌, refl, ◌⊎◌, inl, inr, true, false, not, ◌&&◌, ◌||◌, some, [], ◌∷◌, ◌++◌, arith, Bool-cases,
  Option-cases, Eq, ◌==◌, nat_eq, bytes_eq, ==_refl, ==→eq, index_of-some, length-erase_idx,
  contains, index_of, contains-append, index_of-none, index_of-lt, contains-erase_idx_ne,
  contains-erase_idx_self,
}
use protohackers_go.Traffic.Balancer.{Balancer, add, remove, remove_at, len}
use protohackers_go.Traffic.Balancer.Laws.{IsValid, add-IsValid, remove-IsValid}
use mathlib.Core.Path.{subst}

module _ {ℓ} {A : Type ℓ} ⦃e : Eq A⦄ where
  remove-cases :
      (b : Balancer A) (a : A)
      → ((contains b.set a ≡ false) × (remove b a ≡ b))
        ⊎ ((i : ℕ) × (index_of b.set a ≡ some i) × (remove b a ≡ remove_at b i))
  unfolding remove len
  remove-cases b a = elim (Option-cases (index_of b.set a)) [
    | inl e ↦ inl (index_of-none b.set a e, ground (arith, e))
    | inr (i, e) ↦ inr (i, e, ground (arith, e, index_of-lt b.set a i))
  ]

  -- Who is in the set after `remove`, case by case.
  pub remove_members :
      (b : Balancer A) (a c : A)
      → IsValid b
      → (contains (remove b a).set a ≡ false)
        × ((a == c) ≡ false → contains (remove b a).set c ≡ contains b.set c)
        × IsValid (remove b a)
  unfolding remove_at
  remove_members b a c v = elim (remove-cases b a) [
    | inl (absent, e) ↦ (rw e absent, (λ n. rw e), remove-IsValid b a v)
    | inr (i, at, e) ↦ (
      rw e (contains-erase_idx_self b.set a i v.distinct at),
      (λ n. rw e (contains-erase_idx_ne b.set a c i at n)),
      remove-IsValid b a v,
    )
  ]

  -- After `remove` of `a` from a valid balancer exactly the other dispatchers of its set are in the
  -- set, and the balancer is valid.
  pub remove_lem :
      (b : Balancer A) (a c : A)
      → IsValid b
      → (contains (remove b a).set c ≡ (not (a == c) && contains b.set c)) × IsValid (remove b a)
  remove_lem b a c v =
      let (gone, kept, w) = remove_members b a c v in
      elim (Bool-cases (a == c)) [
        | inl x ↦
            let q : a ≡ c = ==→eq a c x in
            (rw x (subst (λ d. contains (remove b a).set d ≡ false) q gone), w)
        | inr x ↦ (rw x (kept x), w)
      ]

  -- The test of the index in `remove` is the wrong way round: on a valid balancer that holds `a`,
  -- `remove` moves the turn back to the first dispatcher, wherever the index stood.
  pub remove_resets :
      (b : Balancer A) (a : A) → IsValid b → contains b.set a ≡ true → (remove b a).index ≡ 0
  unfolding remove_at
  remove_resets b a v h = elim (remove-cases b a) [
    | inl (absent, e) ↦ cc
    | inr (i, at, e) ↦
        rw e (ground (arith, index_of-lt b.set a i, length-erase_idx b.set i, v.in_range))
  ]

  add-cases :
      (b : Balancer A) (a : A)
      → ((contains b.set a ≡ true) × (add b a ≡ b))
        ⊎ ((contains b.set a ≡ false) × (add b a ≡ record b { set = b.set ++ a ∷ [] }))
  unfolding add
  add-cases b a = elim (Option-cases (index_of b.set a)) [
    | inl e ↦ inr (index_of-none b.set a e, rw (e, add) refl)
    | inr (i, e) ↦ inl (index_of-some b.set a i e, rw (e, add) refl)
  ]

  -- Who is in the set after `add`, case by case.
  pub add_members :
      (b : Balancer A) (a c : A)
      → IsValid b
      → (contains (add b a).set a ≡ true)
        × ((a == c) ≡ false → contains (add b a).set c ≡ contains b.set c)
        × ((add b a).index ≡ b.index)
        × IsValid (add b a)
  unfolding contains
  add_members b a c v = elim (add-cases b a) [
    | inl (old, e) ↦ (rw e old, (λ n. rw e), rw e, add-IsValid b a v)
    | inr (new, e) ↦ (
      rw e (ground (arith, contains-append b.set (a ∷ []) a, ==_refl a)),
      (λ n. rw e (ground (arith, contains-append b.set (a ∷ []) c))),
      rw e,
      add-IsValid b a v,
    )
  ]

  -- After `add` of `a` to a valid balancer exactly `a` and the dispatchers of its set are in the set,
  -- the index stays, and the balancer is valid.
  pub add_lem :
      (b : Balancer A) (a c : A)
      → IsValid b
      → (contains (add b a).set c ≡ (a == c || contains b.set c))
        × ((add b a).index ≡ b.index)
        × IsValid (add b a)
  add_lem b a c v =
      let (now, kept, i, w) = add_members b a c v in
      elim (Bool-cases (a == c)) [
        | inl x ↦
            let q : a ≡ c = ==→eq a c x in
            (rw x (subst (λ d. contains (add b a).set d ≡ true) q now), i, w)
        | inr x ↦ (rw x (kept x), i, w)
      ]
