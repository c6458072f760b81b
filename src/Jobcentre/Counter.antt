-- ===== src/Jobcentre/Counter.antt =====
-- The counter of Ids of jobcentre/jobcentre.go goes up by one at most with each message.
use protohackers_go.Prelude.{
  ℕ, ◌+◌, ◌≤◌, ◌≡◌, refl, inl, inr, Bool, false, Option, none, List, [], arith, Bool-cases,
  Option-cases, ◌==◌, nat_eq, bytes_eq, Bytes, find_first, update, Outcome, Outcome-cases, done,
  panic,
}
use protohackers_go.Prelude.Int.{ℤ}
use protohackers_go.Jobcentre.Types.{
  Request, connected, disconnected, put, get, abort, delete, State, Sent, waits_for, has_id,
}
use protohackers_go.Jobcentre.Requests.{
  wants_wait, handle_connected, notify, handle_put, best_of, answer_get, handle_get, answer_abort,
  handle_abort, answer_delete, handle_delete,
}
use protohackers_go.Jobcentre.Disconnect.{
  delete_waiters, Release, release_jobs, handle_disconnected,
}
use protohackers_go.Jobcentre.Internal.{handle}

module _ {D : Type 0} where
  -- If the step does not panic, the counter is at most one further than `n`.
  abbrev pub AtMostNext : ℕ → Outcome (State D × Sent D) → Type 0
  AtMostNext n (done a) = a.0.next_id ≤ n + 1
  AtMostNext n panic = Unit

  put-AtMostNext :
      (s : State D) (c : ℕ) (q : Bytes) (payload : D) (pri : ℕ)
      → AtMostNext s.next_id (handle_put s c q payload pri)
  unfolding handle_put notify
  put-AtMostNext s c q payload pri = elim (Option-cases (find_first (waits_for q) s.waiters)) [
    | inl e ↦ rw e (omega arith)
    | inr ((i, w), e) ↦ elim (Bool-cases (s.clients w.client)) [
      | inl t ↦ rw (e, t) (omega arith)
      | inr f ↦ rw (e, f) tt
    ]
  ]

  get-next_id :
      (s : State D) (c : ℕ) (qs : List Bytes) (wait : Option Bool)
      → (handle_get s c qs wait).0.next_id ≡ s.next_id
  unfolding handle_get answer_get
  get-next_id s c qs wait = elim (Option-cases (best_of s.queues none qs)) [
    | inl e ↦ elim (Bool-cases (wants_wait wait)) [
      | inl t ↦ rw (e, t) refl
      | inr f ↦ rw (e, f) refl
    ]
    | inr (j, e) ↦ rw e refl
  ]

  abort-next_id : (s : State D) (c : ℕ) (i : ℤ) → (handle_abort s c i).0.next_id ≡ s.next_id
  unfolding handle_abort answer_abort
  abort-next_id s c i = elim (Option-cases (find_first (has_id i) s.jobs)) [
    | inl e ↦ rw e refl
    | inr ((k, j), e) ↦ elim (Bool-cases (s.owner j.id == c)) [
      | inl t ↦ rw (e, t) refl
      | inr f ↦ rw (e, f) refl
    ]
  ]

  delete-next_id : (s : State D) (c : ℕ) (i : ℤ) → (handle_delete s c i).0.next_id ≡ s.next_id
  unfolding handle_delete answer_delete
  delete-next_id s c i = elim (Option-cases (find_first (has_id i) s.jobs)) [
    | inl e ↦ rw e refl
    | inr ((k, j), e) ↦ rw e refl
  ]

  disconnected-AtMostNext : (s : State D) (c : ℕ) → AtMostNext s.next_id (handle_disconnected s c)
  unfolding handle_disconnected
  disconnected-AtMostNext s c =
      let start : Release D = record {
        waiting = delete_waiters c s.waiters;
        queues = s.queues;
        owner = s.owner;
        sent = [];
      } in
      elim (Outcome-cases (release_jobs (update s.clients c false) c start s.jobs)) [
        | inl (l, e) ↦ rw e (omega arith)
        | inr e ↦ rw e tt
      ]

  handle-AtMostNext : (s : State D) (c : ℕ) (r : Request D) → AtMostNext s.next_id (handle s c r)
  unfolding handle handle_connected
  handle-AtMostNext s c connected = omega arith
  handle-AtMostNext s c disconnected = disconnected-AtMostNext s c
  handle-AtMostNext s c (put q payload pri) = put-AtMostNext s c q payload pri
  handle-AtMostNext s c (get qs wait) = omega (arith, get-next_id s c qs wait)
  handle-AtMostNext s c (abort i) = omega (arith, abort-next_id s c i)
  handle-AtMostNext s c (delete i) = omega (arith, delete-next_id s c i)

  pub handle-counts :
      (s : State D) (c : ℕ) (r : Request D) (a : State D × Sent D)
      → handle s c r ≡ done a
      → a.0.next_id ≤ s.next_id + 1
  handle-counts s c r a e = rw e at (handle-AtMostNext s c r)
