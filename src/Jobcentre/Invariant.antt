-- ===== src/Jobcentre/Invariant.antt =====
-- What holds between two messages of `internal` in jobcentre/jobcentre.go.
use protohackers_go.Prelude.{
  ℕ, ◌<◌, ◌≡◌, ap, ◌⊎◌, inl, inr, Bool, true, false, some, List, [], nat_eq, bytes_eq, Bytes, All,
  contains, find_first, find_first-some, All-get_elem?,
}
use protohackers_go.Jobcentre.Types.{Job, Waiter, State, waits_for}
use protohackers_go.Jobcentre.Ids.{has, DistinctIds}

module _ {D : Type 0} where
  -- The Id has been given out, and `home` names the queue of its job.
  abbrev pub IsKnown : ℕ → (ℕ → Bytes) → Job D → Type 0
  IsKnown next home j = (j.id < next) × (j.queue ≡ home j.id)

  -- The job has no owner and is in its queue, or its owner is connected.
  abbrev pub IsKept : (ℕ → Bool) → (Bytes → List (Job D)) → (ℕ → ℕ) → Job D → Type 0
  IsKept clients queues owner j =
      ((owner j.id ≡ 0) × (has (queues j.queue) j.id ≡ true)) ⊎ (clients (owner j.id) ≡ true)

-- The waiter is a cleared slot, or its client is connected.
abbrev pub IsServed : (ℕ → Bool) → Waiter → Type 0
IsServed clients w = (w.queues ≡ []) ⊎ (clients w.client ≡ true)

pub record IsValid {D : Type 0} (s : State D) : Type 0 where
  pub home : ℕ → Bytes
  pub known : All (IsKnown s.next_id home) s.jobs
  pub queued : (q : Bytes) → All (IsKnown s.next_id home) (s.queues q)
  pub unique : DistinctIds s.jobs
  pub served : All (IsServed s.clients) s.waiters
  pub nobody : s.clients 0 ≡ false
  pub kept : All (IsKept s.clients s.queues s.owner) s.jobs

-- A waiter that waits for a queue is no cleared slot.
pub waiting-connected :
    (clients : ℕ → Bool) (ws : List Waiter) (q : Bytes) (i : ℕ) (w : Waiter)
    → All (IsServed clients) ws
    → find_first (waits_for q) ws ≡ some (i, w)
    → clients w.client ≡ true
unfolding contains
waiting-connected clients ws q i w h e =
    let (t, g) = find_first-some (waits_for q) ws i w e in
    elim (All-get_elem? (IsServed clients) ws i w h g) [
      | inl empty ↦ cc (ap (λ qs. contains qs q) empty)
      | inr c ↦ c
    ]
