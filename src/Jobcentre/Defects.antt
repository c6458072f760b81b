-- ===== src/Jobcentre/Defects.antt =====
-- Where jobcentre/jobcentre.go hands a job out once too often.
use protohackers_go.Prelude.{
  ℕ, ◌≡◌, refl, sym, ◌∙◌, ◌≢◌, Bool, false, Option, some, List, [], ◌∷◌, ◌++◌, arith, ◌==◌, nat_eq,
  bytes_eq, ==_refl, get_elem?, All, erase_idx, find_first, find_first-some, update,
}
use protohackers_go.Prelude.Int.{ℤ}
use protohackers_go.Jobcentre.Types.{status_ok, Job, State, status, job_response, has_id}
use protohackers_go.Jobcentre.Requests.{
  better, best_in, best_of, handle_get, handle_abort, handle_delete,
}
use protohackers_go.Jobcentre.Ids.{has, DistinctIds, erase_idx-others}

module _ {D : Type 0} where
  requeued : State D → Job D → State D
  requeued s job = record s { queues = update s.queues job.queue (s.queues job.queue ++ job ∷ []) }

  abort_found :
      (s : State D) (c k : ℕ) (i : ℤ) (job : Job D)
      → find_first (has_id i) s.jobs ≡ some (k, job)
      → s.owner job.id ≡ c
      → handle_abort s c i ≡ (requeued s job, (c, status status_ok []) ∷ [])
  unfolding handle_abort requeued
  abort_found s c k i job e o = rw e (rw (o, ==_refl c) refl)

  deleted : State D → ℕ → State D
  deleted s k = record s { jobs = erase_idx s.jobs k }

  delete_owned :
      (s : State D) (c k : ℕ) (i : ℤ) (job : Job D)
      → find_first (has_id i) s.jobs ≡ some (k, job)
      → s.owner job.id ≢ 0
      → handle_delete s c i ≡ (deleted s k, (c, status status_ok []) ∷ [])
  unfolding handle_delete deleted
  delete_owned s c k i job e o =
      let n : (s.owner job.id == 0) ≡ false = ground arith in rw e (rw n refl)

  has-others : (ks : List (Job D)) (i : ℕ) → All (λ l. (i == l.id) ≡ false) ks → has ks i ≡ false
  unfolding has
  has-others [] i h = refl
  has-others (k ∷ ks) i h = ground (arith, has-others ks i h.1, h.0)

  has_self :
      (js : List (Job D)) (k : ℕ) (job : Job D)
      → get_elem? js k ≡ some job
      → DistinctIds js
      → has (erase_idx js k) job.id ≡ false
  has_self js k job e d = has-others (erase_idx js k) job.id (erase_idx-others js k job d e)

  only_job :
      (s : State D) (c : ℕ) (wait : Option Bool) (job : Job D)
      → s.queues job.queue ≡ job ∷ []
      → (handle_get s c (job.queue ∷ []) wait).1 ≡ (c, job_response job) ∷ []
  unfolding handle_get best_of best_in better
  only_job s c wait job e = rw (e, best_in) refl

  -- An abort leaves the owner of the job in place: the owner can abort it again, each abort is
  -- answered `ok`, and the queue then holds the job twice.
  pub abort_twice :
      (s : State D) (c k : ℕ) (i : ℤ) (job : Job D)
      → find_first (has_id i) s.jobs ≡ some (k, job)
      → s.owner job.id ≡ c
      → let (t, out) = handle_abort s c i in
        let (u, out') = handle_abort t c i in
        (u.queues job.queue ≡ (s.queues job.queue ++ job ∷ []) ++ job ∷ [])
        × (out ≡ (c, status status_ok []) ∷ [])
        × (out' ≡ (c, status status_ok []) ∷ [])
  unfolding requeued
  abort_twice s c k i job e o =
      rw (abort_found s c k i job e o)
        (rw (abort_found (requeued s job) c k i job e o) (rw (==_refl job.queue) refl, refl, refl))

  -- A job that its owner aborted is deleted from the list of jobs alone: it stays in its queue, and if
  -- nothing else is in that queue, the next get from it is answered with the deleted job.
  pub get_deleted_job :
      (s : State D) (c d k : ℕ) (i : ℤ) (wait : Option Bool) (job : Job D)
      → find_first (has_id i) s.jobs ≡ some (k, job)
      → DistinctIds s.jobs
      → s.owner job.id ≡ c
      → c ≢ 0
      → s.queues job.queue ≡ []
      → let t = (handle_abort s c i).0 in
        let (u, out) = handle_delete t c i in
        (out ≡ (c, status status_ok []) ∷ [])
        × (has u.jobs job.id ≡ false)
        × ((handle_get u d (job.queue ∷ []) wait).1 ≡ (d, job_response job) ∷ [])
  unfolding requeued deleted
  get_deleted_job s c d k i wait job e dis o n z = rw (abort_found s c k i job e o) (
      rw (delete_owned (requeued s job) c k i job e (λ x. n (sym o ∙ x))) (
        refl,
        has_self s.jobs k job (find_first-some (has_id i) s.jobs k job e).1 dis,
        only_job (deleted (requeued s job) k) d wait job (rw (==_refl job.queue, z) refl),
      ))
