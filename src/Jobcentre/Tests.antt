-- ===== src/Jobcentre/Tests.antt =====
-- Runs of the goroutine of jobcentre/jobcentre.go, and its theorems at a concrete state.
use protohackers_go.Prelude.{
  Bool, List, ℕ, ◌≤◌, ◌≡◌, refl, ◌⊎◌, inr, true, false, ◌||◌, codes, none, some, [], ◌∷◌, ◌++◌,
  arith, if◌then◌else◌, ◌==◌, nat_eq, bytes_eq, Bytes, bytes_beq, All, Any, delete_func, contains,
  find_first, update, done, ◌>>=◌,
}
use protohackers_go.Prelude.Int.{pos}
use protohackers_go.Jobcentre.Types.{
  status_ok, status_no_job, status_message, Job, Waiter, get_response, put_response, connected,
  disconnected, put, get, delete, State, Sent, initial, status, job_response, has_id,
}
use protohackers_go.Jobcentre.Requests.{
  notify, wants_wait, better, best_in, best_of, handle_connected, handle_put, handle_get,
  handle_abort, handle_delete,
}
use protohackers_go.Jobcentre.Internal.{handle, run}
use protohackers_go.Jobcentre.Handler.{
  Decoders, to_internal, unknown_request, invalid_request, rounds, stale_request,
}
use protohackers_go.Jobcentre.Service.{job_channel, run-job_channel}
use protohackers_go.Server.Tcp.{Accepted, connection}
use protohackers_go.Jobcentre.Ids.{has, DistinctIds}
use protohackers_go.Jobcentre.Invariant.{IsValid}
use protohackers_go.Jobcentre.Preservation.{handle-IsValid}
use protohackers_go.Jobcentre.Priority.{In, get_highest}
use protohackers_go.Jobcentre.Fresh.{Ascending, put_ids, run-Gives}
use protohackers_go.Jobcentre.Defects.{abort_twice, get_deleted_job}

abbrev mail : Bytes
mail = b'm' ∷ []

abbrev job1 : Job ℕ
job1 = record { id = 1; payload = 70; priority = 5; queue = mail }

abbrev waiter2 : Waiter
waiter2 = record { client = 2; queues = mail ∷ [] }

-- Clients 1 and 2 are connected; 1 has job 1, and 2 waits.
abbrev busy : State ℕ
busy = record {
  next_id = 2;
  clients = λ c. c == 1 || c == 2;
  waiters = waiter2 ∷ [];
  queues = λ q. [];
  jobs = job1 ∷ [];
  owner = λ i. if i == 1 then 1 else 0;
}

busy-IsValid : IsValid busy
unfolding has
busy-IsValid = record {
  home = λ i. mail;
  known = ((omega arith, refl), tt);
  queued = λ q. tt;
  unique = (refl, tt);
  served = (inr refl, tt);
  nobody = refl;
  kept = (inr refl, tt);
}

-- A put and a get of two jobs: the one of the higher priority comes first.
ordered :
    (run {D = ℕ} initial
        ((1, connected) ∷ (1, put mail 70 5) ∷ (1, put mail 71 9) ∷ (1, get (mail ∷ []) none) ∷ [])
      >>= λ r. done r.1)
    ≡ done (
        (1, put_response (status_message status_ok) 1)
        ∷ (1, put_response (status_message status_ok) 2)
        ∷ (1, get_response (status_message status_ok) 2 71 9 mail)
        ∷ [])
unfolding run handle initial handle_connected handle_put handle_get best_of best_in better notify
    find_first bytes_beq delete_func
ordered = refl

handle-IsValid_example :
    (s' : State ℕ) × (out : Sent ℕ) × (handle busy 1 disconnected ≡ done (s', out)) × IsValid s'
handle-IsValid_example = handle-IsValid busy 1 disconnected (omega arith) busy-IsValid refl

get_highest_example :
    let (s', out) = handle_get busy 1 (mail ∷ []) none in
    (All (λ q. busy.queues q ≡ []) (mail ∷ [])
      × ((wants_wait none ≡ true)
            × (s' ≡ record busy {
              waiters = busy.waiters ++ record { client = 1; queues = mail ∷ [] } ∷ [];
            })
            × (out ≡ [])
          ⊎ (wants_wait none ≡ false) × (s' ≡ busy) × (out ≡ (1, status status_no_job []) ∷ [])))
    ⊎ ((j : Job ℕ) × Any (λ q. In j (busy.queues q)) (mail ∷ [])
        × All (λ q. All (λ k. k.priority ≤ j.priority) (busy.queues q)) (mail ∷ [])
        × (out ≡ (1, job_response j) ∷ [])
        × (s'.owner j.id ≡ 1)
        × (has (s'.queues j.queue) j.id ≡ false))
get_highest_example = get_highest busy 1 (mail ∷ []) none

abbrev after_put : State ℕ
after_put = record busy {
  next_id = 3;
  waiters = [];
  queues =
      update busy.queues mail (record { id = 2; payload = 8; priority = 4; queue = mail } ∷ []);
  jobs = job1 ∷ record { id = 2; payload = 8; priority = 4; queue = mail } ∷ [];
  owner = update busy.owner 2 0;
}

put_runs :
    run busy ((1, put mail 8 4) ∷ [])
    ≡ done (
      after_put,
      (1, put_response (status_message status_ok) 2)
          ∷ (2, get_response (status_message status_ok) 2 8 4 mail)
          ∷ [],
    )
unfolding run handle handle_put notify find_first contains bytes_beq
put_runs = refl

run-Gives_example : Ascending 2 3 (
    put_ids {D = ℕ} (
      (1, put_response (status_message status_ok) 2)
      ∷ (2, get_response (status_message status_ok) 2 8 4 mail)
      ∷ []))
run-Gives_example = run-Gives busy ((1, put mail 8 4) ∷ []) _ (omega arith) put_runs

job1_found : find_first (has_id (pos 1)) busy.jobs ≡ some (0, job1)
unfolding find_first
job1_found = refl

queued_twice :
    let (t, out) = handle_abort busy 1 (pos 1) in
    let (u, out') = handle_abort t 1 (pos 1) in
    (u.queues mail ≡ job1 ∷ job1 ∷ [])
    × (out ≡ (1, status status_ok []) ∷ [])
    × (out' ≡ (1, status status_ok []) ∷ [])
queued_twice = abort_twice busy 1 0 (pos 1) job1 job1_found refl

busy_distinct : DistinctIds busy.jobs
unfolding has
busy_distinct = (refl, tt)

get_deleted_job_example :
    let t = (handle_abort busy 1 (pos 1)).0 in
    let (u, out) = handle_delete t 1 (pos 1) in
    (out ≡ (1, status status_ok []) ∷ [])
    × (has u.jobs 1 ≡ false)
    × ((handle_get u 2 (mail ∷ []) none).1 ≡ (2, job_response job1) ∷ [])
get_deleted_job_example =
    get_deleted_job busy 1 2 0 (pos 1) none job1 job1_found busy_distinct refl (omega arith) refl

-- Lines that begin with 100 are requests to delete job 7, others are no JSON.
abbrev small_decoders : Decoders ℕ
small_decoders = record {
  decode_request = λ l name. if l == 100 ∷ [] then (true, codes "delete") else (false, name);
  decode_put = λ l. (false, ([], 0, 0));
  decode_get = λ l. (false, ([], none));
  decode_abort = λ l. (false, pos 0);
  decode_delete = λ l. if l == 100 ∷ [] then (true, pos 7) else (false, pos 0);
}

stale_request_run :
    (rounds small_decoders (λ n. true) [] ((100 ∷ []) ∷ (33 ∷ []) ∷ []) 0).0
    ≡ to_internal (delete (pos 7))
      ∷ unknown_request
      ∷ invalid_request
      ∷ to_internal (delete (pos 0))
      ∷ []
unfolding bytes_beq
stale_request_run =
    stale_request small_decoders (λ n. true) 0 (100 ∷ []) (33 ∷ []) (pos 7) [] refl refl refl refl
      refl refl

-- Two connections: the first sends a line of no JSON and a request to delete, the second nothing.
abbrev two_accepts : List Accepted
two_accepts = connection ∷ connection ∷ []

abbrev lines_of_two : ℕ → Bytes
lines_of_two i = if i == 1 then 33 ∷ 10 ∷ 100 ∷ 10 ∷ [] else []

-- The first write to a client succeeds, all others fail.
abbrev second_fails : ℕ → ℕ → Bool
second_fails i n = n == 0

run-job_channel_example :
    (a : State ℕ × Sent ℕ) × (run initial
        (job_channel small_decoders two_accepts second_fails lines_of_two (0 ∷ 1 ∷ 0 ∷ 1 ∷ 0 ∷ []))
      ≡ done a)
    × IsValid a.0
run-job_channel_example =
    run-job_channel small_decoders two_accepts second_fails lines_of_two (0 ∷ 1 ∷ 0 ∷ 1 ∷ 0 ∷ [])
      (omega arith) (omega arith)
