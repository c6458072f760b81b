-- ===== src/Jobcentre/Disconnect.antt =====
-- The case `disconnected` of `internal` in jobcentre/jobcentre.go, with the two slices over one array.
use protohackers_go.Prelude.{
  ℕ, ◌-◌, Bool, false, Option, none, some, List, [], ◌∷◌, ◌++◌, if◌then◌else◌, ◌==◌, nat_eq,
  bytes_eq, Bytes, length, replicate, erase_idx, delete_func, find_first, update, Outcome, done,
  panic, ◌>>=◌,
}
use protohackers_go.Jobcentre.Types.{Job, Waiter, State, Sent, job_response, waits_for}

-- A slice of waiters: the part that it shows, and the rest of the array behind it.
pub record Slice : Type 0 where
  pub front : List Waiter
  pub back : List Waiter

abbrev pub zero_waiter : Waiter
zero_waiter = record { client = 0; queues = [] }

abbrev pub is_waiter : ℕ → Waiter → Bool
is_waiter c w = w.client == c

-- `slices.DeleteFunc` moves what it keeps to the front of the array and clears the rest.
unfoldable pub delete_waiters : ℕ → List Waiter → Slice
delete_waiters c ws =
    let kept = delete_func (is_waiter c) ws in
    record { front = kept; back = replicate (length ws - length kept) zero_waiter }

abbrev pub last_list {ℓ} : {A : Type ℓ} → List A → List A
last_list [] = []
last_list (x ∷ []) = x ∷ []
last_list (x ∷ y ∷ ys) = last_list (y ∷ ys)

-- `append(s[:i], s[i+1:]...)` in the same array: the last element stays behind the shorter slice.
unfoldable pub delete_at : Slice → ℕ → Slice
delete_at s i = record { front = erase_idx s.front i; back = last_list s.front ++ s.back }

-- The variables of the loop over the jobs of a client that has gone.
pub record Release (D : Type 0) : Type 0 where
  pub waiting : Slice
  pub queues : Bytes → List (Job D)
  pub owner : ℕ → ℕ
  pub sent : Sent D

module _ {D : Type 0} where
  -- A job goes to the first client that waits for its queue, or back to the queue.
  unfoldable pub hand_over :
      (ℕ → Bool) → Release D → Job D → Option (ℕ × Waiter) → Outcome (Release D)
  hand_over clients l j none = done (record l {
    owner = update l.owner j.id 0;
    queues = update l.queues j.queue (l.queues j.queue ++ j ∷ []);
  })
  hand_over clients l j (some (i, w)) =
      if clients w.client
      then done (record l {
        owner = update (update l.owner j.id 0) j.id w.client;
        waiting = delete_at l.waiting i;
        sent = l.sent ++ (w.client, job_response j) ∷ [];
      })
      else panic

  unfoldable pub release_job : (ℕ → Bool) → ℕ → Release D → Job D → Outcome (Release D)
  release_job clients c l j =
      if l.owner j.id == c
      then hand_over clients l j (find_first (waits_for j.queue) l.waiting.front)
      else done l

  unfoldable pub release_jobs : (ℕ → Bool) → ℕ → Release D → List (Job D) → Outcome (Release D)
  release_jobs clients c l [] = done l
  release_jobs clients c l (j ∷ js) =
      release_job clients c l j >>= λ l'. release_jobs clients c l' js

  -- `case disconnected`. The `waiters :=` of this case is a new variable: afterwards the outer
  -- `waiters` has its old length again, over the changed array.
  unfoldable pub handle_disconnected : State D → ℕ → Outcome (State D × Sent D)
  handle_disconnected s c =
      let clients = update s.clients c false in
      let start : Release D = record {
        waiting = delete_waiters c s.waiters;
        queues = s.queues;
        owner = s.owner;
        sent = [];
      } in
      release_jobs clients c start s.jobs >>= λ l. done (
        record s {
          clients = clients;
          waiters = l.waiting.front ++ l.waiting.back;
          queues = l.queues;
          owner = l.owner;
        },
        l.sent,
      )
