-- ===== src/Jobcentre/Release.antt =====
-- The loop over the jobs of a client that has gone, in the case `disconnected` of
-- jobcentre/jobcentre.go.
use protohackers_go.Prelude.{
  ℕ, zero, suc, ◌-◌, ◌≡◌, refl, sym, ap, ◌∙◌, ◌⊎◌, inl, inr, Bool, true, false, List, [], ◌∷◌, ◌++◌,
  arith, Bool-cases, Option-cases, ◌==◌, nat_eq, bytes_eq, Bytes, ==_refl, ==→eq, ==_sym_false,
  length, replicate, All, All-append, erase_idx-All, delete_func, find_first, update, done,
}
use protohackers_go.Jobcentre.Types.{Job, Waiter, job_response, waits_for}
use protohackers_go.Jobcentre.Disconnect.{
  Slice, zero_waiter, is_waiter, delete_waiters, last_list, delete_at, Release, hand_over,
  release_job, release_jobs,
}
use protohackers_go.Jobcentre.Ids.{has-enqueue, has-enqueue_self, All-enqueue}
use protohackers_go.Jobcentre.Invariant.{IsKnown, IsKept, IsServed, waiting-connected}

-- Both parts of the array hold waiters that are served.
abbrev pub IsServedSlice : (ℕ → Bool) → Slice → Type 0
IsServedSlice clients s = All (IsServed clients) s.front × All (IsServed clients) s.back

last_list-All : (P : Waiter → Type 0) (ws : List Waiter) → All P ws → All P (last_list ws)
last_list-All P [] h = tt
last_list-All P (x ∷ []) h = h
last_list-All P (x ∷ y ∷ ys) h = last_list-All P (y ∷ ys) h.1

delete_at-served :
    (clients : ℕ → Bool) (s : Slice) (i : ℕ)
    → IsServedSlice clients s
    → IsServedSlice clients (delete_at s i)
unfolding delete_at
delete_at-served clients s i h = (
  erase_idx-All (IsServed clients) s.front i h.0,
  All-append (IsServed clients) (last_list s.front) s.back
      (last_list-All (IsServed clients) s.front h.0) h.1,
)

-- Without the waiters of a client, the others are served without it.
pub delete_waiters-served :
    (clients : ℕ → Bool) (c : ℕ) (ws : List Waiter)
    → All (IsServed clients) ws
    → IsServedSlice (update clients c false) (delete_waiters c ws)
unfolding delete_waiters delete_func
delete_waiters-served clients c ws h =
    (kept ws h, cleared (length ws - length (delete_func (is_waiter c) ws)))
  where
    still :
        (w : Waiter)
        → (c == w.client) ≡ false
        → IsServed clients w
        → IsServed (update clients c false) w
    still w n (inl e) = inl e
    still w n (inr t) = inr (rw n t)

    kept :
        (us : List Waiter)
        → All (IsServed clients) us
        → All (IsServed (update clients c false)) (delete_func (is_waiter c) us)
    kept [] h = tt
    kept (w ∷ us) h = elim (Bool-cases (is_waiter c w)) [
      | inl his ↦ rw his (kept us h.1)
      | inr other ↦ rw other (still w (==_sym_false w.client c other) h.0, kept us h.1)
    ]

    cleared : (n : ℕ) → All (IsServed (update clients c false)) (replicate n zero_waiter)
    cleared zero = tt
    cleared (suc n) = (inl refl, cleared n)

module _ {D : Type 0} (clients : ℕ → Bool) (c next : ℕ) (home : ℕ → Bytes) where
  abbrev pub Kept : Release D → Job D → Type 0
  Kept l k = IsKept clients l.queues l.owner k

  -- A job that the loop may still have to release.
  abbrev pub Pending : Release D → Job D → Type 0
  Pending l k = Kept l k ⊎ (l.owner k.id ≡ c)

  -- What has become of the jobs when `j` has a new owner or is back in its queue.
  record HandedOver (l l' : Release D) (j : Job D) : Type 0 where
    served : IsServedSlice clients l'.waiting
    queued : (q : Bytes) → All (IsKnown next home) (l'.queues q)
    same : (k : Job D) → IsKnown next home k → j.id ≡ k.id → Kept l' k
    other : (k : Job D) → (j.id == k.id) ≡ false → Kept l k → Kept l' k
    owner : (k : Job D) → (j.id == k.id) ≡ false → l'.owner k.id ≡ l.owner k.id

  module _ (l : Release D) (j : Job D) (w : IsServedSlice clients l.waiting)
      (h : (q : Bytes) → All (IsKnown next home) (l.queues q)) (known : IsKnown next home j) where
    abbrev requeued : Release D
    requeued = record l {
      owner = update l.owner j.id 0;
      queues = update l.queues j.queue (l.queues j.queue ++ j ∷ []);
    }

    requeued-HandedOver : HandedOver l requeued j
    requeued-HandedOver = record {
      served = w;
      queued = All-enqueue (IsKnown next home) l.queues j h known;
      same = λ k n e.
          let q : k.queue ≡ j.queue = n.1 ∙ ap home (sym e) ∙ sym known.1 in
          inl (rw (e, ==_refl k.id) refl, rw (q, ← e) (has-enqueue_self l.queues j));
      other = λ k n o. elim o [
        | inl (free, there) ↦ inl (rw n free, has-enqueue l.queues j.queue k.queue j k.id there)
        | inr t ↦ inr (rw n t)
      ];
      owner = λ k n. rw n refl;
    }

    abbrev given : ℕ → Waiter → Release D
    given i v = record l {
      owner = update (update l.owner j.id 0) j.id v.client;
      waiting = delete_at l.waiting i;
      sent = l.sent ++ (v.client, job_response j) ∷ [];
    }

    given-HandedOver : (i : ℕ) (v : Waiter) → clients v.client ≡ true → HandedOver l (given i v) j
    given-HandedOver i v t = record {
      served = delete_at-served clients l.waiting i w;
      queued = h;
      same = λ k n e. inr (rw (e, ==_refl k.id) t);
      other = λ k n o. rw n o;
      owner = λ k n. rw n refl;
    }

    hand_over-HandedOver :
        (l' : Release D) × (hand_over clients l j (find_first (waits_for j.queue) l.waiting.front)
          ≡ done l')
        × HandedOver l l' j
    unfolding hand_over
    hand_over-HandedOver = elim (Option-cases (find_first (waits_for j.queue) l.waiting.front)) [
      | inl e ↦ (requeued, rw e refl, requeued-HandedOver)
      | inr ((i, v), e) ↦
          let t : clients v.client ≡ true =
            waiting-connected clients l.waiting.front j.queue i v w.0 e in
          (given i v, rw e (rw t refl), given-HandedOver i v t)
    ]

  -- One step of the loop, at the job `j`.
  record Step (l l' : Release D) (j : Job D) : Type 0 where
    served : IsServedSlice clients l'.waiting
    queued : (q : Bytes) → All (IsKnown next home) (l'.queues q)
    keeps : (k : Job D) → IsKnown next home k → Kept l k → Kept l' k
    pends : (k : Job D) → IsKnown next home k → Pending l k → Pending l' k
    settles : Pending l j → Kept l' j

  HandedOver-Step :
      (l l' : Release D) (j : Job D) → IsKnown next home j → HandedOver l l' j → Step l l' j
  HandedOver-Step l l' j known o = record {
    served = o.served;
    queued = o.queued;
    keeps = λ k n x. elim (Bool-cases (j.id == k.id)) [
      | inl e ↦ o.same k n (==→eq j.id k.id e)
      | inr e ↦ o.other k e x
    ];
    pends = λ k n x. elim (Bool-cases (j.id == k.id)) [
      | inl e ↦ inl (o.same k n (==→eq j.id k.id e))
      | inr e ↦ elim x [ inl y ↦ inl (o.other k e y) | inr y ↦ inr (o.owner k e ∙ y) ]
    ];
    settles = λ x. o.same j known refl;
  }

  release_job-Step :
      (l : Release D) (j : Job D)
      → IsServedSlice clients l.waiting
      → ((q : Bytes) → All (IsKnown next home) (l.queues q))
      → IsKnown next home j
      → (l' : Release D) × (release_job clients c l j ≡ done l') × Step l l' j
  unfolding release_job
  release_job-Step l j w h known = elim (Bool-cases (l.owner j.id == c)) [
    | inl e ↦
        let (l', p, o) = hand_over-HandedOver l j w h known in
        (l', rw e p, HandedOver-Step l l' j known o)
    | inr e ↦ (
      l,
      rw e refl,
      record {
        served = w;
        queued = h;
        keeps = λ k n x. x;
        pends = λ k n x. x;
        settles = λ x. elim x [ inl y ↦ y | inr y ↦ ground arith ];
      },
    )
  ]

  -- The whole loop: it does not panic, it keeps what was kept, and no job of the list is left to the
  -- client that has gone.
  pub record Loop (l l' : Release D) (js : List (Job D)) : Type 0 where
    pub served : IsServedSlice clients l'.waiting
    pub queued : (q : Bytes) → All (IsKnown next home) (l'.queues q)
    pub keeps : (k : Job D) → IsKnown next home k → Kept l k → Kept l' k
    pub settles : All (Pending l) js → All (Kept l') js

  pub release_jobs-Loop :
      (l : Release D) (js : List (Job D))
      → IsServedSlice clients l.waiting
      → ((q : Bytes) → All (IsKnown next home) (l.queues q))
      → All (IsKnown next home) js
      → (l' : Release D) × (release_jobs clients c l js ≡ done l') × Loop l l' js
  unfolding release_jobs
  release_jobs-Loop l [] w h known =
      (l, refl, record { served = w; queued = h; keeps = λ k n x. x; settles = λ x. tt })
  release_jobs-Loop l (j ∷ js) w h known =
      let (m, p, o) = release_job-Step l j w h known.0 in
      let (l', q, r) = release_jobs-Loop m js o.served o.queued known.1 in
      (
        l',
        rw p q,
        record {
          served = r.served;
          queued = r.queued;
          keeps = λ k n x. r.keeps k n (o.keeps k n x);
          settles = λ x. (r.keeps j known.0 (o.settles x.0), r.settles (later js o known.1 x.1));
        },
      )
    where
      later :
          {m : Release D} (ks : List (Job D))
          → Step l m j
          → All (IsKnown next home) ks
          → All (Pending l) ks
          → All (Pending m) ks
      later [] o n x = tt
      later (k ∷ ks) o n x = (o.pends k n.0 x.0, later ks o n.1 x.1)
