-- ===== src/Jobcentre/Ids.antt =====
-- The Ids in the lists of jobs of jobcentre/jobcentre.go.
use protohackers_go.Prelude.{
  ℕ, zero, suc, ◌≡◌, refl, inl, inr, Bool, true, false, ◌||◌, some, List, [], ◌∷◌, ◌++◌, arith,
  Bool-cases, ◌==◌, nat_eq, bytes_eq, Bytes, ==_refl, ==→eq, ==_sym_false, get_elem?, All,
  All-append, erase_idx, delete_func, All-get_elem?, update,
}
use protohackers_go.Jobcentre.Types.{Job}

module _ {D : Type 0} where
  -- A job with the Id stands in the list.
  unfoldable pub has : List (Job D) → ℕ → Bool
  has [] i = false
  has (j ∷ js) i = j.id == i || has js i

  abbrev pub DistinctIds : List (Job D) → Type 0
  DistinctIds [] = Unit
  DistinctIds (j ∷ js) = (has js j.id ≡ false) × DistinctIds js

  pub has-append : (js ks : List (Job D)) (i : ℕ) → has (js ++ ks) i ≡ (has js i || has ks i)
  unfolding has
  has-append [] ks i = refl
  has-append (j ∷ js) ks i = ground (arith, has-append js ks i)

  -- A queue that gets one more job loses none.
  pub has-enqueue :
      (queues : Bytes → List (Job D)) (q p : Bytes) (j : Job D) (i : ℕ)
      → has (queues p) i ≡ true
      → has (update queues q (queues q ++ j ∷ []) p) i ≡ true
  has-enqueue queues q p j i h = elim (Bool-cases (q == p)) [
    | inl same ↦ rw (same, ==→eq q p same, has-append (queues p) (j ∷ []) i, h) refl
    | inr other ↦ rw other h
  ]

  pub has-enqueue_self :
      (queues : Bytes → List (Job D)) (j : Job D)
      → has (update queues j.queue (queues j.queue ++ j ∷ []) j.queue) j.id ≡ true
  unfolding has
  has-enqueue_self queues j =
      rw (==_refl j.queue, has-append (queues j.queue) (j ∷ []) j.id) (ground arith)

  pub All-enqueue :
      (P : Job D → Type 0) (queues : Bytes → List (Job D)) (j : Job D)
      → ((q : Bytes) → All P (queues q))
      → P j
      → (q : Bytes) → All P (update queues j.queue (queues j.queue ++ j ∷ []) q)
  All-enqueue P queues j h p q = elim (Bool-cases (j.queue == q)) [
    | inl same ↦ rw same (All-append P (queues j.queue) (j ∷ []) (h j.queue) (p, tt))
    | inr other ↦ rw other (h q)
  ]

  pub All-update :
      (P : Job D → Type 0) (queues : Bytes → List (Job D)) (q : Bytes) (js : List (Job D))
      → ((p : Bytes) → All P (queues p))
      → All P js
      → (p : Bytes) → All P (update queues q js p)
  All-update P queues q js h k p = elim (Bool-cases (q == p)) [
    | inl same ↦ rw same k
    | inr other ↦ rw other (h p)
  ]

  pub has-update :
      (queues : Bytes → List (Job D)) (q p : Bytes) (js : List (Job D)) (i : ℕ)
      → (has (queues q) i ≡ true → has js i ≡ true)
      → has (queues p) i ≡ true
      → has (update queues q js p) i ≡ true
  has-update queues q p js i f h = elim (Bool-cases (q == p)) [
    | inl same ↦ rw same (f (rw (==→eq q p same) h))
    | inr other ↦ rw other h
  ]

  pub has-delete_func :
      (js : List (Job D)) (i k : ℕ)
      → (i == k) ≡ false
      → has js k ≡ true
      → has (delete_func (λ j. j.id == i) js) k ≡ true
  unfolding has delete_func
  has-delete_func [] i k n h = h
  has-delete_func (j ∷ js) i k n h = ground (arith, has-delete_func js i k n)

  pub has-erase_idx :
      (js : List (Job D)) (i : ℕ) (j : Job D) (k : ℕ)
      → get_elem? js i ≡ some j
      → (j.id == k) ≡ false
      → has js k ≡ true
      → has (erase_idx js i) k ≡ true
  unfolding has
  has-erase_idx [] i j k e n h = cc
  has-erase_idx (x ∷ js) zero j k e n h = let q : x ≡ j = cc in rw (q, n) at h
  has-erase_idx (x ∷ js) (suc i) j k e n h = ground (arith, has-erase_idx js i j k e n)

  pub has-erase_idx-false :
      (js : List (Job D)) (i k : ℕ) → has js k ≡ false → has (erase_idx js i) k ≡ false
  unfolding has
  has-erase_idx-false [] i k h = h
  has-erase_idx-false (x ∷ js) zero k h = ground arith
  has-erase_idx-false (x ∷ js) (suc i) k h = ground (arith, has-erase_idx-false js i k)

  pub erase_idx-DistinctIds :
      (js : List (Job D)) (i : ℕ) → DistinctIds js → DistinctIds (erase_idx js i)
  erase_idx-DistinctIds [] i d = tt
  erase_idx-DistinctIds (x ∷ js) zero d = d.1
  erase_idx-DistinctIds (x ∷ js) (suc i) d =
      (has-erase_idx-false js i x.id d.0, erase_idx-DistinctIds js i d.1)

  has-false-All : (js : List (Job D)) (i : ℕ) → has js i ≡ false → All (λ k. (i == k.id) ≡ false) js
  unfolding has
  has-false-All [] i h = tt
  has-false-All (j ∷ js) i h = (ground arith, has-false-All js i (ground arith))

  -- No other job has the Id of the job that is taken out.
  pub erase_idx-others :
      (js : List (Job D)) (i : ℕ) (j : Job D)
      → DistinctIds js
      → get_elem? js i ≡ some j
      → All (λ k. (j.id == k.id) ≡ false) (erase_idx js i)
  unfolding has
  erase_idx-others [] i j d e = cc
  erase_idx-others (x ∷ js) zero j d e = let q : x ≡ j = cc in rw (← q) (has-false-All js x.id d.0)
  erase_idx-others (x ∷ js) (suc i) j d e = (
    ==_sym_false x.id j.id
        (All-get_elem? (λ k. (x.id == k.id) ≡ false) js i j (has-false-All js x.id d.0) e),
    erase_idx-others js i j d.1 e,
  )
