-- ===== src/Traffic/Balancer/Members.antt =====
-- Who the balancer of traffic/balancer.go answers with.
use protohackers_go.Prelude.{
  ℕ, zero, suc, ◌+◌, ◌%◌, ◌≡◌, sym, ap, ◌∙◌, inl, inr, true, Option, none, some, List, [], ◌∷◌,
  arith, Bool-cases, Eq, ◌==◌, nat_eq, bytes_eq, ==_refl, length, get_elem?, contains, done,
}
use protohackers_go.Traffic.Balancer.{Balancer, len, get, get_at}
use protohackers_go.Traffic.Balancer.Laws.{IsValid, get_lem}

module _ {ℓ} {A : Type ℓ} ⦃e : Eq A⦄ where
  get_elem?-contains :
      (xs : List A) (i : ℕ) (x : A) → get_elem? xs i ≡ some x → contains xs x ≡ true
  unfolding contains
  get_elem?-contains [] i x h = cc
  get_elem?-contains (y ∷ ys) zero x h = ground (arith, ==_refl x)
  get_elem?-contains (y ∷ ys) (suc i) x h = ground (arith, get_elem?-contains ys i x)

  get_at-set :
      (b : Balancer A) (o : Option A) (r : Option A × Balancer A)
      → get_at b o ≡ done r
      → (r.1.set ≡ b.set) × (r.0 ≡ o)
  unfolding get_at
  get_at-set b none r h = cc
  get_at-set b (some x) r h =
      let q : (some x, record b { index = (b.index + 1) % length b.set }) ≡ r = cc in
      (ap (λ r. r.1.set) (sym q), ap (λ r. r.0) (sym q))

  -- What `get` keeps: the set, and that it answers with a member.
  abbrev pub IsTurn : Balancer A → Option A × Balancer A → Type ℓ
  IsTurn b r = (r.1.set ≡ b.set) × ((x : A) → r.0 ≡ some x → contains b.set x ≡ true)

  get-IsTurn : (b : Balancer A) (r : Option A × Balancer A) → get b ≡ done r → IsTurn b r
  unfolding get len
  get-IsTurn b r h = elim (Bool-cases (length b.set == 0)) [
    | inl z ↦
        let q : (none, b) ≡ r = cc (rw (z, get) at h) in (ap (λ r. r.1.set) (sym q), (λ x n. cc))
    | inr z ↦
        let (s, o) = get_at-set b (get_elem? b.set b.index) r (rw (z, get) at h) in
        (s, (λ x n. get_elem?-contains b.set b.index x (sym o ∙ n)))
  ]

  pub get-Returns :
      (b : Balancer A)
      → IsValid b
      → (r : Option A × Balancer A) × (get b ≡ done r) × IsTurn b r × IsValid r.1
  get-Returns b v = elim (get_lem b v) [
    | inl (z, g) ↦ ((none, b), g, get-IsTurn b (none, b) g, v)
    | inr (x, xs, b', u, g, w, v') ↦ ((some x, b'), g, get-IsTurn b (some x, b') g, v')
  ]
