-- ===== src/Jobcentre/Replies.antt =====
-- A get, an abort and a delete of jobcentre/jobcentre.go keep the invariant.
use protohackers_go.Prelude.{
  ℕ, ◌≡◌, inl, inr, Bool, true, false, Option, none, some, List, arith, Bool-cases, Option-cases,
  ◌==◌, nat_eq, bytes_eq, Bytes, get_elem?, All, All-append, All-mono, All-zip, erase_idx,
  erase_idx-All, delete_func, delete_func-All, find_first, find_first-some, All-get_elem?, update,
}
use protohackers_go.Prelude.Int.{ℤ}
use protohackers_go.Jobcentre.Types.{Job, State, has_id}
use protohackers_go.Jobcentre.Requests.{
  wants_wait, best_of, remove_from, handle_get, handle_abort, handle_delete,
}
use protohackers_go.Jobcentre.Ids.{
  has, has-enqueue, All-enqueue, All-update, has-update, has-delete_func, has-erase_idx,
  erase_idx-DistinctIds, erase_idx-others,
}
use protohackers_go.Jobcentre.Invariant.{IsKnown, IsKept, IsServed, IsValid}

module _ {D : Type 0} where
  pub get-IsValid :
      (s : State D) (c : ℕ) (qs : List Bytes) (wait : Option Bool)
      → IsValid s
      → s.clients c ≡ true
      → IsValid (handle_get s c qs wait).0
  unfolding handle_get
  get-IsValid s c qs wait v t = elim (Option-cases (best_of s.queues none qs)) [
    | inl e ↦ rw e (elim (Bool-cases (wants_wait wait)) [
      | inl w ↦ rw w (record {
        home = v.home;
        known = v.known;
        queued = v.queued;
        unique = v.unique;
        served = All-append (IsServed s.clients) s.waiters _ v.served (inr t, tt);
        nobody = v.nobody;
        kept = v.kept;
      })
      | inr w ↦ rw w v
    ])
    | inr (job, e) ↦ rw e (
        let rest : List (Job D) = delete_func (λ j. j.id == job.id) (s.queues job.queue) in
        record {
          home = v.home;
          known = v.known;
          unique = v.unique;
          served = v.served;
          nobody = v.nobody;
          queued = All-update (IsKnown s.next_id v.home) s.queues job.queue rest v.queued (
              delete_func-All (IsKnown s.next_id v.home) _ (s.queues job.queue)
                (v.queued job.queue));
          kept = All-mono _ _ s.jobs (taken job) v.kept;
        })
  ]
    where
      taken :
          (job j : Job D)
          → IsKept s.clients s.queues s.owner j
          → IsKept s.clients
              (update s.queues job.queue (delete_func (λ k. k.id == job.id) (s.queues job.queue)))
              (update s.owner job.id c)
              j
      taken job j x = elim (Bool-cases (job.id == j.id)) [
        | inl same ↦ inr (rw same t)
        | inr other ↦ rw other (elim x [
          | inl (free, there) ↦ inl (
            free,
            has-update s.queues job.queue j.queue _ j.id
                (has-delete_func (s.queues job.queue) job.id j.id other) there,
          )
          | inr o ↦ inr o
        ])
      ]

  pub abort-IsValid : (s : State D) (c : ℕ) (i : ℤ) → IsValid s → IsValid (handle_abort s c i).0
  unfolding handle_abort
  abort-IsValid s c i v = elim (Option-cases (find_first (has_id i) s.jobs)) [
    | inl e ↦ rw e v
    | inr ((k, job), e) ↦ rw e (elim (Bool-cases (s.owner job.id == c)) [
      | inr foreign ↦ rw foreign v
      | inl his ↦ rw his (record {
        home = v.home;
        known = v.known;
        unique = v.unique;
        served = v.served;
        nobody = v.nobody;
        queued = All-enqueue (IsKnown s.next_id v.home) s.queues job v.queued (
            All-get_elem? (IsKnown s.next_id v.home) s.jobs k job v.known
              (find_first-some (has_id i) s.jobs k job e).1);
        kept =
            All-mono _ _ s.jobs
              (λ j x. elim x [
                | inl (free, there) ↦
                    inl (free, has-enqueue s.queues job.queue j.queue job j.id there)
                | inr o ↦ inr o
              ])
              v.kept;
      })
    ])
  ]

  remove_from-All :
      (P : Job D → Type 0) (js : List (Job D)) (r : Option (ℕ × Job D))
      → All P js
      → All P (remove_from js r)
  unfolding remove_from
  remove_from-All P js none h = h
  remove_from-All P js (some (i, j)) h = erase_idx-All P js i h

  has-remove_from :
      (js : List (Job D)) (i k : ℕ)
      → (i == k) ≡ false
      → has js k ≡ true
      → has (remove_from js (find_first (λ j. j.id == i) js)) k ≡ true
  unfolding remove_from
  has-remove_from js i k n h = elim (Option-cases (find_first (λ j. j.id == i) js)) [
    | inl e ↦ rw e h
    | inr ((m, j), e) ↦ rw e (
        let (t, g) = find_first-some (λ j. j.id == i) js m j e in
        has-erase_idx js m j k g (ground arith) h)
  ]

  pub delete-IsValid : (s : State D) (c : ℕ) (i : ℤ) → IsValid s → IsValid (handle_delete s c i).0
  unfolding handle_delete
  delete-IsValid s c i v = elim (Option-cases (find_first (has_id i) s.jobs)) [
    | inl e ↦ rw e v
    | inr ((k, job), e) ↦ rw e (
        let g : get_elem? s.jobs k ≡ some job = (find_first-some (has_id i) s.jobs k job e).1 in
        elim (Bool-cases (s.owner job.id == 0)) [
          | inl free ↦ rw free (record {
            home = v.home;
            known = erase_idx-All _ s.jobs k v.known;
            unique = erase_idx-DistinctIds s.jobs k v.unique;
            served = v.served;
            nobody = v.nobody;
            queued = All-update (IsKnown s.next_id v.home) s.queues job.queue _ v.queued (
                remove_from-All (IsKnown s.next_id v.home) (s.queues job.queue) _
                  (v.queued job.queue));
            kept =
                All-zip _ _ _ (erase_idx s.jobs k)
                  (λ j n x. elim x [
                    | inl (z, there) ↦ inl (
                      z,
                      has-update s.queues job.queue j.queue _ j.id
                          (has-remove_from (s.queues job.queue) job.id j.id n) there,
                    )
                    | inr o ↦ inr o
                  ])
                  (erase_idx-others s.jobs k job v.unique g) (erase_idx-All _ s.jobs k v.kept);
          })
          | inr owned ↦ rw owned (record {
            home = v.home;
            known = erase_idx-All _ s.jobs k v.known;
            unique = erase_idx-DistinctIds s.jobs k v.unique;
            served = v.served;
            nobody = v.nobody;
            queued = v.queued;
            kept = erase_idx-All _ s.jobs k v.kept;
          })
        ])
  ]
