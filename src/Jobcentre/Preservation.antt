-- ===== src/Jobcentre/Preservation.antt =====
-- Every message of `internal` in jobcentre/jobcentre.go keeps its invariant, and no message panics.
use protohackers_go.Prelude.{
  ℕ, ◌+◌, ◌%◌, ◌^◌, ◌<◌, ◌≡◌, refl, ◌≢◌, inl, inr, true, false, List, [], ◌∷◌, ◌++◌, arith,
  Option-cases, ◌==◌, nat_eq, bytes_eq, Bytes, ==_refl, All, All-append, All-mono, erase_idx,
  erase_idx-All, find_first, update, done,
}
use protohackers_go.Jobcentre.Types.{
  status_ok, status_message, Job, put_response, Request, connected, disconnected, put, get, abort,
  delete, State, Sent, initial, job_response, waits_for,
}
use protohackers_go.Jobcentre.Requests.{
  notify, handle_connected, handle_put, handle_get, handle_abort, handle_delete,
}
use protohackers_go.Jobcentre.Internal.{handle}
use protohackers_go.Jobcentre.Ids.{
  has, DistinctIds, has-append, has-enqueue, has-enqueue_self, All-enqueue,
}
use protohackers_go.Jobcentre.Invariant.{IsKnown, IsKept, IsServed, IsValid, waiting-connected}
use protohackers_go.Jobcentre.Connections.{connected-IsValid, disconnected-IsValid}
use protohackers_go.Jobcentre.Replies.{get-IsValid, abort-IsValid, delete-IsValid}

-- What the goroutine of a connection sends: first `connected`, with an Id that is not 0, and then
-- only while the client is connected.
abbrev pub IsSender : {D : Type 0} → State D → ℕ → Request D → Type 0
IsSender s c connected = c ≢ 0
IsSender s c r = s.clients c ≡ true

-- A new Id is none of the Ids given out.
fresh : (next k : ℕ) → k < next → (next == k) ≡ false
fresh next k h = ground arith

module _ {D : Type 0} where
  pub initial-IsValid : IsValid {D = D} initial
  unfolding initial
  initial-IsValid = record {
    home = λ i. [];
    known = tt;
    queued = λ q. tt;
    unique = tt;
    served = tt;
    nobody = refl;
    kept = tt;
  }

  DistinctIds-append :
      (next : ℕ) (home : ℕ → Bytes) (js : List (Job D)) (j : Job D)
      → All (IsKnown next home) js
      → j.id ≡ next
      → DistinctIds js
      → DistinctIds (js ++ j ∷ [])
  unfolding has
  DistinctIds-append next home [] j k e d = (refl, tt)
  DistinctIds-append next home (x ∷ js) j k e d = (
    ground (arith, has-append js (j ∷ []) x.id, k.0.0, d.0),
    DistinctIds-append next home js j k.1 e d.1,
  )

  -- The state of `handle_put` before it looks for a waiter.
  abbrev new_job : State D → Bytes → D → ℕ → Job D
  new_job s q payload pri = record { id = s.next_id; payload = payload; priority = pri; queue = q }

  abbrev with_job : State D → Job D → State D
  with_job s job = record s {
    next_id = (s.next_id + 1) % 2 ^ 64;
    jobs = s.jobs ++ job ∷ [];
    queues = update s.queues job.queue (s.queues job.queue ++ job ∷ []);
    owner = update s.owner s.next_id 0;
  }

  with_job-IsValid :
      (s : State D) (job : Job D)
      → s.next_id + 1 < 2 ^ 64
      → job.id ≡ s.next_id
      → IsValid s
      → IsValid (with_job s job)
  with_job-IsValid s job b e v = record {
    home = home;
    known = All-append _ s.jobs (job ∷ []) (All-mono _ _ s.jobs grow v.known) (mine, tt);
    queued = All-enqueue _ s.queues job (λ q. All-mono _ _ (s.queues q) grow (v.queued q)) mine;
    unique = DistinctIds-append s.next_id v.home s.jobs job v.known e v.unique;
    served = v.served;
    nobody = v.nobody;
    kept =
        All-append _ s.jobs (job ∷ []) (still s.jobs v.known v.kept)
          (inl (rw (e, ==_refl s.next_id) refl, has-enqueue_self s.queues job), tt);
  }
    where
      home : ℕ → Bytes
      home = update v.home s.next_id job.queue

      mine : IsKnown ((s.next_id + 1) % 2 ^ 64) home job
      mine = (omega (arith, b, e), rw (e, ==_refl s.next_id) refl)

      grow : (j : Job D) → IsKnown s.next_id v.home j → IsKnown ((s.next_id + 1) % 2 ^ 64) home j
      grow j k = (omega (arith, b, k.0), rw (fresh s.next_id j.id k.0) k.1)

      still :
          (js : List (Job D))
          → All (IsKnown s.next_id v.home) js
          → All (IsKept s.clients s.queues s.owner) js
          → All (IsKept s.clients (with_job s job).queues (with_job s job).owner) js
      still [] k x = tt
      still (j ∷ js) k x = (
        rw (fresh s.next_id j.id k.0.0) (elim x.0 [
          | inl (free, there) ↦ inl (free, has-enqueue s.queues job.queue j.queue job j.id there)
          | inr t ↦ inr t
        ]),
        still js k.1 x.1,
      )

  put-IsValid :
      (s : State D) (c : ℕ) (q : Bytes) (payload : D) (pri : ℕ)
      → s.next_id + 1 < 2 ^ 64
      → IsValid s
      → (s' : State D) × (out : Sent D) × (handle_put s c q payload pri ≡ done (s', out))
        × IsValid s'
  unfolding handle_put notify
  put-IsValid s c q payload pri b v =
      let job : Job D = new_job s q payload pri in
      let t : State D = with_job s job in
      let sent : Sent D = (c, put_response (status_message status_ok) job.id) ∷ [] in
      let w : IsValid t = with_job-IsValid s job b refl v in
      elim (Option-cases (find_first (waits_for q) s.waiters)) [
        | inl e ↦ (t, sent, rw e refl, w)
        | inr ((i, u), e) ↦ (
          record t { waiters = erase_idx s.waiters i },
          sent ++ (u.client, job_response job) ∷ [],
          rw e (rw (waiting-connected s.clients s.waiters q i u v.served e) refl),
          record {
            home = w.home;
            known = w.known;
            queued = w.queued;
            unique = w.unique;
            served = erase_idx-All (IsServed s.clients) s.waiters i v.served;
            nobody = w.nobody;
            kept = w.kept;
          },
        )
      ]

  -- While the 64 bits of the counter of Ids do not go round, every message that a connection can send,
  -- handled in a state where the invariant holds, is handled without a panic, and the invariant holds afterwards: Ids are new and distinct, each
  -- client that waits is connected, and each job is in its queue without an owner or is owned by a
  -- connected client.
  pub handle-IsValid :
      (s : State D) (c : ℕ) (r : Request D)
      → s.next_id + 1 < 2 ^ 64
      → IsValid s
      → IsSender s c r
      → (s' : State D) × (out : Sent D) × (handle s c r ≡ done (s', out)) × IsValid s'
  unfolding handle
  handle-IsValid s c connected b v n = (handle_connected s c, [], refl, connected-IsValid s c v n)
  handle-IsValid s c disconnected b v n = disconnected-IsValid s c v n
  handle-IsValid s c (put q payload pri) b v n = put-IsValid s c q payload pri b v
  handle-IsValid s c (get qs wait) b v n =
      ((handle_get s c qs wait).0, (handle_get s c qs wait).1, refl, get-IsValid s c qs wait v n)
  handle-IsValid s c (abort i) b v n =
      ((handle_abort s c i).0, (handle_abort s c i).1, refl, abort-IsValid s c i v)
  handle-IsValid s c (delete i) b v n =
      ((handle_delete s c i).0, (handle_delete s c i).1, refl, delete-IsValid s c i v)
