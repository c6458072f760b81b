-- ===== src/Jobcentre/Presence.antt =====
-- Which clients `internal` of jobcentre/jobcentre.go knows after a message.
use protohackers_go.Prelude.{
  ℕ, ◌≡◌, refl, inl, inr, Bool, false, Option, none, List, [], Bool-cases, ◌==◌, nat_eq, bytes_eq,
  Bytes, update, Outcome, Outcome-cases, done, panic,
}
use protohackers_go.Jobcentre.Types.{
  Request, connected, disconnected, put, get, abort, delete, State, Sent,
}
use protohackers_go.Prelude.{find_first, Option-cases}
use protohackers_go.Prelude.Int.{ℤ}
use protohackers_go.Jobcentre.Types.{waits_for, has_id}
use protohackers_go.Jobcentre.Requests.{
  wants_wait, handle_connected, notify, handle_put, best_of, answer_get, handle_get, answer_abort,
  handle_abort, answer_delete, handle_delete,
}
use protohackers_go.Jobcentre.Disconnect.{
  delete_waiters, Release, release_jobs, handle_disconnected,
}
use protohackers_go.Jobcentre.Internal.{handle}
use protohackers_go.Server.Sessions.{Kind, comes, says, goes, after}

module _ {D : Type 0} where
  abbrev pub kind_of : Request D → Kind
  kind_of connected = comes
  kind_of disconnected = goes
  kind_of r = says

  -- If the step does not panic, the clients are then those of the messages.
  abbrev pub HasClients : (ℕ → Bool) → Outcome (State D × Sent D) → Type 0
  HasClients p (done a) = a.0.clients ≡ p
  HasClients p panic = Unit

  put-HasClients :
      (s : State D) (c : ℕ) (q : Bytes) (payload : D) (pri : ℕ)
      → HasClients s.clients (handle_put s c q payload pri)
  unfolding handle_put notify
  put-HasClients s c q payload pri = elim (Option-cases (find_first (waits_for q) s.waiters)) [
    | inl e ↦ rw e refl
    | inr ((i, w), e) ↦ elim (Bool-cases (s.clients w.client)) [
      | inl t ↦ rw (e, t) refl
      | inr f ↦ rw (e, f) tt
    ]
  ]

  get-clients :
      (s : State D) (c : ℕ) (qs : List Bytes) (wait : Option Bool)
      → (handle_get s c qs wait).0.clients ≡ s.clients
  unfolding handle_get answer_get
  get-clients s c qs wait = elim (Option-cases (best_of s.queues none qs)) [
    | inl e ↦ elim (Bool-cases (wants_wait wait)) [
      | inl t ↦ rw (e, t) refl
      | inr f ↦ rw (e, f) refl
    ]
    | inr (j, e) ↦ rw e refl
  ]

  abort-clients : (s : State D) (c : ℕ) (i : ℤ) → (handle_abort s c i).0.clients ≡ s.clients
  unfolding handle_abort answer_abort
  abort-clients s c i = elim (Option-cases (find_first (has_id i) s.jobs)) [
    | inl e ↦ rw e refl
    | inr ((k, j), e) ↦ elim (Bool-cases (s.owner j.id == c)) [
      | inl t ↦ rw (e, t) refl
      | inr f ↦ rw (e, f) refl
    ]
  ]

  delete-clients : (s : State D) (c : ℕ) (i : ℤ) → (handle_delete s c i).0.clients ≡ s.clients
  unfolding handle_delete answer_delete
  delete-clients s c i = elim (Option-cases (find_first (has_id i) s.jobs)) [
    | inl e ↦ rw e refl
    | inr ((k, j), e) ↦ rw e refl
  ]

  disconnected-HasClients :
      (s : State D) (c : ℕ) → HasClients (update s.clients c false) (handle_disconnected s c)
  unfolding handle_disconnected
  disconnected-HasClients s c =
      let start : Release D = record {
        waiting = delete_waiters c s.waiters;
        queues = s.queues;
        owner = s.owner;
        sent = [];
      } in
      elim (Outcome-cases (release_jobs (update s.clients c false) c start s.jobs)) [
        | inl (l, e) ↦ rw e refl
        | inr e ↦ rw e tt
      ]

  pub handle-HasClients :
      (s : State D) (c : ℕ) (r : Request D)
      → HasClients (after s.clients c (kind_of r)) (handle s c r)
  unfolding handle handle_connected
  handle-HasClients s c connected = refl
  handle-HasClients s c disconnected = disconnected-HasClients s c
  handle-HasClients s c (put q payload pri) = put-HasClients s c q payload pri
  handle-HasClients s c (get qs wait) = get-clients s c qs wait
  handle-HasClients s c (abort i) = abort-clients s c i
  handle-HasClients s c (delete i) = delete-clients s c i
