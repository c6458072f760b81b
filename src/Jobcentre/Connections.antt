-- ===== src/Jobcentre/Connections.antt =====
-- A client of jobcentre/jobcentre.go that comes or goes keeps the invariant.
use protohackers_go.Prelude.{
  ℕ, ◌≡◌, refl, sym, ◌≢◌, inl, inr, Bool, true, false, [], ◌++◌, arith, Bool-cases, ◌==◌, nat_eq,
  bytes_eq, ==→eq, All-append, All-mono, update, done,
}
use protohackers_go.Jobcentre.Types.{State, Sent}
use protohackers_go.Jobcentre.Requests.{handle_connected}
use protohackers_go.Jobcentre.Disconnect.{delete_waiters, Release, handle_disconnected}
use protohackers_go.Jobcentre.Invariant.{IsKept, IsServed, IsValid}
use protohackers_go.Jobcentre.Release.{delete_waiters-served, release_jobs-Loop}

module _ {D : Type 0} where
  pub connected-IsValid : (s : State D) (c : ℕ) → IsValid s → c ≢ 0 → IsValid (handle_connected s c)
  unfolding handle_connected
  connected-IsValid s c v n = record {
    home = v.home;
    known = v.known;
    queued = v.queued;
    unique = v.unique;
    served =
        All-mono (IsServed s.clients) (IsServed (update s.clients c true)) s.waiters
          (λ w x. elim x [ inl e ↦ inl e | inr t ↦ inr (ground arith) ]) v.served;
    nobody = ground (arith, v.nobody);
    kept =
        All-mono (IsKept s.clients s.queues s.owner)
          (IsKept (update s.clients c true) s.queues s.owner) s.jobs
          (λ j x. elim x [ inl e ↦ inl e | inr t ↦ inr (ground arith) ]) v.kept;
  }

  pub disconnected-IsValid :
      (s : State D) (c : ℕ)
      → IsValid s
      → s.clients c ≡ true
      → (s' : State D) × (out : Sent D) × (handle_disconnected s c ≡ done (s', out)) × IsValid s'
  unfolding handle_disconnected
  disconnected-IsValid s c v t =
      let clients : (ℕ → Bool) = update s.clients c false in
      let start : Release D = record {
        waiting = delete_waiters c s.waiters;
        queues = s.queues;
        owner = s.owner;
        sent = [];
      } in
      let (l, e, o) =
        release_jobs-Loop clients c s.next_id v.home start s.jobs
          (delete_waiters-served s.clients c s.waiters v.served) v.queued v.known in
      (
        record s {
          clients = clients;
          waiters = l.waiting.front ++ l.waiting.back;
          queues = l.queues;
          owner = l.owner;
        },
        l.sent,
        rw e refl,
        record {
          home = v.home;
          known = v.known;
          queued = o.queued;
          unique = v.unique;
          served =
              All-append (IsServed clients) l.waiting.front l.waiting.back o.served.0 o.served.1;
          nobody = ground (arith, v.nobody);
          kept = o.settles (
              All-mono (IsKept s.clients s.queues s.owner) _ s.jobs
                (λ j x. elim x [
                  | inl e ↦ inl (inl e)
                  | inr t ↦ elim (Bool-cases (c == s.owner j.id)) [
                    | inl his ↦ inr (sym (==→eq c (s.owner j.id) his))
                    | inr n ↦ inl (inr (rw n t))
                  ]
                ])
                v.kept);
        },
      )
