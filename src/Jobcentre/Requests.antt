-- ===== src/Jobcentre/Requests.antt =====
-- The requests of a client: the cases `connected`, `*PutRequest`, `*GetRequest`, `*AbortRequest` and
-- `*DeleteRequest` of `internal` in jobcentre/jobcentre.go.
use protohackers_go.Prelude.{
  ℕ, ◌+◌, ◌%◌, ◌^◌, Bool, true, false, Option, none, some, List, [], ◌∷◌, ◌++◌, ltb, if◌then◌else◌,
  ◌==◌, nat_eq, bytes_eq, Bytes, erase_idx, delete_func, find_first, update, Outcome, done, panic,
}
use protohackers_go.Prelude.Int.{ℤ}
use protohackers_go.Jobcentre.Types.{
  status_ok, status_no_job, status_message, Job, Waiter, put_response, State, Sent, status,
  job_response, has_id, waits_for,
}

-- `r.Wait != nil && *r.Wait`.
abbrev pub wants_wait : Option Bool → Bool
wants_wait none = false
wants_wait (some b) = b

module _ {D : Type 0} where
  -- `case connected`.
  unfoldable pub handle_connected : State D → ℕ → State D
  handle_connected s c = record s { clients = update s.clients c true }

  -- `case *PutRequest`: the counter wraps as an `int` does. The job goes to its queue, the client gets the Id, and the first client that
  -- waits for the queue gets the job too. To write to a client that is not there is a panic.
  unfoldable pub notify :
      State D → Job D → Sent D → Option (ℕ × Waiter) → Outcome (State D × Sent D)
  notify s j sent none = done (s, sent)
  notify s j sent (some (i, w)) =
      if s.clients w.client
      then done
          (record s { waiters = erase_idx s.waiters i }, sent ++ (w.client, job_response j) ∷ [])
      else panic

  unfoldable pub handle_put : State D → ℕ → Bytes → D → ℕ → Outcome (State D × Sent D)
  unfolding notify
  handle_put s c q payload pri =
      let job : Job D = record { id = s.next_id; payload = payload; priority = pri; queue = q } in
      let s' : State D = record s {
        next_id = (s.next_id + 1) % 2 ^ 64;
        jobs = s.jobs ++ job ∷ [];
        queues = update s.queues q (s.queues q ++ job ∷ []);
        owner = update s.owner s.next_id 0;
      } in
      notify s' job ((c, put_response (status_message status_ok) job.id) ∷ [])
        (find_first (waits_for q) s.waiters)

  -- `case *GetRequest`: the first job of the highest priority, queue by queue.
  unfoldable pub better : Option (Job D) → Job D → Option (Job D)
  better none j = some j
  better (some best) j = if ltb best.priority j.priority then some j else some best

  unfoldable pub best_in : Option (Job D) → List (Job D) → Option (Job D)
  best_in best [] = best
  best_in best (j ∷ js) = best_in (better best j) js

  unfoldable pub best_of : (Bytes → List (Job D)) → Option (Job D) → List Bytes → Option (Job D)
  best_of queues best [] = best
  best_of queues best (q ∷ qs) = best_of queues (best_in best (queues q)) qs

  unfoldable pub answer_get :
      State D → ℕ → List Bytes → Option Bool → Option (Job D) → State D × Sent D
  answer_get s c qs wait none =
      if wants_wait wait
      then (record s { waiters = s.waiters ++ record { client = c; queues = qs } ∷ [] }, [])
      else (s, (c, status status_no_job []) ∷ [])
  answer_get s c qs wait (some job) = (
    record s {
      owner = update s.owner job.id c;
      queues = update s.queues job.queue (delete_func (λ j. j.id == job.id) (s.queues job.queue));
    },
    (c, job_response job) ∷ [],
  )

  unfoldable pub handle_get : State D → ℕ → List Bytes → Option Bool → State D × Sent D
  unfolding answer_get
  handle_get s c qs wait = answer_get s c qs wait (best_of s.queues none qs)

  -- `case *AbortRequest`: the job's owner stays as it is.
  unfoldable pub answer_abort : State D → ℕ → Option (ℕ × Job D) → State D × Sent D
  answer_abort s c none = (s, (c, status status_no_job []) ∷ [])
  answer_abort s c (some (i, job)) =
      if s.owner job.id == c
      then (
        record s { queues = update s.queues job.queue (s.queues job.queue ++ job ∷ []) },
        (c, status status_ok []) ∷ [],
      )
      else (s, (c, status status_no_job []) ∷ [])

  unfoldable pub handle_abort : State D → ℕ → ℤ → State D × Sent D
  unfolding answer_abort
  handle_abort s c i = answer_abort s c (find_first (has_id i) s.jobs)

  -- `case *DeleteRequest`: a job with no owner is taken out of its queue too.
  unfoldable pub remove_from : List (Job D) → Option (ℕ × Job D) → List (Job D)
  remove_from q none = q
  remove_from q (some (i, j)) = erase_idx q i

  unfoldable pub answer_delete : State D → ℕ → Option (ℕ × Job D) → State D × Sent D
  unfolding remove_from
  answer_delete s c none = (s, (c, status status_no_job []) ∷ [])
  answer_delete s c (some (i, job)) =
      let q = s.queues job.queue in
      let removed = remove_from q (find_first (λ j. j.id == job.id) q) in
      (
        record s {
          jobs = erase_idx s.jobs i;
          queues = if s.owner job.id == 0 then update s.queues job.queue removed else s.queues;
        },
        (c, status status_ok []) ∷ [],
      )

  unfoldable pub handle_delete : State D → ℕ → ℤ → State D × Sent D
  unfolding answer_delete
  handle_delete s c i = answer_delete s c (find_first (has_id i) s.jobs)
