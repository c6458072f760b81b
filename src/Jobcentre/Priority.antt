-- ===== src/Jobcentre/Priority.antt =====
-- Which job a `*GetRequest` gets in jobcentre/jobcentre.go.
use protohackers_go.Prelude.{
  ℕ, ◌≤◌, ◌≡◌, refl, ◌⊎◌, inl, inr, Bool, true, false, Option, none, some, List, [], ◌∷◌, ◌++◌,
  arith, ltb, Bool-cases, Option-cases, ◌==◌, nat_eq, bytes_eq, Bytes, ==_refl, All, All-mono, Any,
  delete_func,
}
use protohackers_go.Jobcentre.Types.{status_no_job, Job, State, status, job_response}
use protohackers_go.Jobcentre.Requests.{wants_wait, better, best_in, best_of, handle_get}
use protohackers_go.Jobcentre.Ids.{has}
use native.Mathlib.Nat.{le_trans}

module _ {D : Type 0} where
  -- The job is none, or has no higher priority than the other.
  abbrev AtMost : Job D → Option (Job D) → Type 0
  AtMost j none = Unit
  AtMost j (some k) = k.priority ≤ j.priority

  AtMost-trans :
      (b j : Job D) (best : Option (Job D))
      → AtMost b best
      → b.priority ≤ j.priority
      → AtMost j best
  AtMost-trans b j none h le = tt
  AtMost-trans b j (some k) h le = omega arith

  abbrev pub In : Job D → List (Job D) → Type 0
  In j = Any (λ k. k ≡ j)

  best_in-none :
      (best : Option (Job D)) (js : List (Job D))
      → best_in best js ≡ none
      → (best ≡ none) × (js ≡ [])
  unfolding best_in better
  best_in-none best [] e = (e, refl)
  best_in-none none (j ∷ js) e = cc (best_in-none (some j) js e).0
  best_in-none (some b) (j ∷ js) e = elim (Bool-cases (ltb b.priority j.priority)) [
    | inl t ↦ cc (best_in-none (some j) js (rw t at e)).0
    | inr t ↦ cc (best_in-none (some b) js (rw t at e)).0
  ]

  best_in-some :
      (best : Option (Job D)) (js : List (Job D)) (j : Job D)
      → best_in best js ≡ some j
      → AtMost j best × All (λ k. k.priority ≤ j.priority) js × ((best ≡ some j) ⊎ In j js)
  unfolding best_in better
  best_in-some none [] j e = cc
  best_in-some (some b) [] j e = let q : b ≡ j = cc in (rw q (omega arith), tt, inl e)
  best_in-some none (k ∷ js) j e =
      let (m, h, o) = best_in-some (some k) js j e in
      (tt, (m, h), elim o [ inl s ↦ inr (inl (cc)) | inr t ↦ inr (inr t) ])
  best_in-some (some b) (k ∷ js) j e = elim (Bool-cases (ltb b.priority k.priority)) [
    | inl t ↦
        let (m, h, o) = best_in-some (some k) js j (rw t at e) in
        (ground arith, (m, h), elim o [ inl s ↦ inr (inl (cc)) | inr u ↦ inr (inr u) ])
    | inr t ↦
        let (m, h, o) = best_in-some (some b) js j (rw t at e) in
        (m, (ground arith, h), elim o [ inl s ↦ inl s | inr u ↦ inr (inr u) ])
  ]

  best_of-none :
      (queues : Bytes → List (Job D)) (best : Option (Job D)) (qs : List Bytes)
      → best_of queues best qs ≡ none
      → (best ≡ none) × All (λ q. queues q ≡ []) qs
  unfolding best_of
  best_of-none queues best [] e = (e, tt)
  best_of-none queues best (q ∷ qs) e =
      let (h, k) = best_of-none queues (best_in best (queues q)) qs e in
      let (b, m) = best_in-none best (queues q) h in (b, (m, k))

  best_of-some :
      (queues : Bytes → List (Job D)) (best : Option (Job D)) (qs : List Bytes) (j : Job D)
      → best_of queues best qs ≡ some j
      → AtMost j best
        × All (λ q. All (λ k. k.priority ≤ j.priority) (queues q)) qs
        × ((best ≡ some j) ⊎ Any (λ q. In j (queues q)) qs)
  unfolding best_of
  best_of-some queues none [] j e = cc
  best_of-some queues (some b) [] j e = let q : b ≡ j = cc in (rw q (omega arith), tt, inl e)
  best_of-some queues best (q ∷ qs) j e =
      let (m, h, o) = best_of-some queues (best_in best (queues q)) qs j e in
      elim (Option-cases (best_in best (queues q))) [
        | inl n ↦
            let (b, z) = best_in-none best (queues q) n in
            (rw b tt, (rw z tt, h), elim o [ inl x ↦ cc | inr y ↦ inr (inr y) ])
        | inr (b, t) ↦
            let (m', h', o') = best_in-some best (queues q) b t in
            let le : b.priority ≤ j.priority = rw t at m in
            (
              AtMost-trans b j best m' le,
              (All-mono _ _ (queues q) (λ k x. le_trans x le) h', h),
              elim o [
                | inr y ↦ inr (inr y)
                | inl x ↦
                    let same : b ≡ j = cc in
                    elim (rw same at o') [ inl u ↦ inl u | inr u ↦ inr (inl u) ]
              ],
            )
      ]

  has-delete_func_self :
      (js : List (Job D)) (i : ℕ) → has (delete_func (λ j. j.id == i) js) i ≡ false
  unfolding has delete_func
  has-delete_func_self [] i = refl
  has-delete_func_self (j ∷ js) i = ground (arith, has-delete_func_self js i)

  -- A get without a job in any of its queues makes the client wait if it asked for that, and is
  -- answered `no-job` with no change otherwise. Any other get is answered at once with a job of one
  -- of these queues whose priority no job of these queues exceeds; the client becomes its owner, and
  -- the job leaves its queue.
  pub get_highest :
      (s : State D) (c : ℕ) (qs : List Bytes) (wait : Option Bool)
      → let (s', out) = handle_get s c qs wait in
        (All (λ q. s.queues q ≡ []) qs
          × ((wants_wait wait ≡ true)
                × (s' ≡ record s { waiters = s.waiters ++ record { client = c; queues = qs } ∷ [] })
                × (out ≡ [])
              ⊎ (wants_wait wait ≡ false) × (s' ≡ s) × (out ≡ (c, status status_no_job []) ∷ [])))
        ⊎ ((j : Job D) × Any (λ q. In j (s.queues q)) qs
            × All (λ q. All (λ k. k.priority ≤ j.priority) (s.queues q)) qs
            × (out ≡ (c, job_response j) ∷ [])
            × (s'.owner j.id ≡ c)
            × (has (s'.queues j.queue) j.id ≡ false))
  unfolding handle_get
  get_highest s c qs wait = elim (Option-cases (best_of s.queues none qs)) [
    | inl e ↦ rw e (
        inl (
          (best_of-none s.queues none qs e).1,
          elim (Bool-cases (wants_wait wait)) [
            | inl w ↦ rw w (inl (refl, refl, refl))
            | inr w ↦ rw w (inr (refl, refl, refl))
          ],
        ))
    | inr (j, e) ↦
        let (m, h, o) = best_of-some s.queues none qs j e in
        rw e (
          inr (
            j,
            elim o [ inl x ↦ cc | inr y ↦ y ],
            h,
            refl,
            rw (==_refl j.id) refl,
            rw (==_refl j.queue) (has-delete_func_self (s.queues j.queue) j.id),
          ))
  ]
