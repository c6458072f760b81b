-- ===== src/Jobcentre/Fresh.antt =====
-- The Ids that jobcentre/jobcentre.go answers puts with.
use protohackers_go.Prelude.{
  ℕ, suc, ◌+◌, ◌%◌, ◌^◌, ◌<◌, ◌≤◌, length, ◌≡◌, refl, ap, ◌∙◌, inl, inr, Bool, false, Option, none,
  some, List, [], ◌∷◌, ◌++◌, arith, Bool-cases, Option-cases, ◌==◌, nat_eq, bytes_eq, Bytes,
  erase_idx, find_first, update, Outcome-cases, done,
}
use protohackers_go.Prelude.Int.{ℤ}
use protohackers_go.Jobcentre.Types.{
  status_ok, status_message, Job, Waiter, get_response, put_response, error_response, Request,
  connected, disconnected, put, get, abort, delete, State, Sent, status, job_response, has_id,
  waits_for,
}
use protohackers_go.Jobcentre.Requests.{
  notify, best_of, handle_connected, handle_put, handle_get, handle_abort, handle_delete,
}
use protohackers_go.Jobcentre.Disconnect.{
  delete_waiters, Release, hand_over, release_job, release_jobs, handle_disconnected,
}
use protohackers_go.Jobcentre.Internal.{handle, run}
use protohackers_go.Jobcentre.Counter.{handle-counts}
use mathlib.Core.List.{append-nil}
use mathlib.Core.Path.{subst}
use native.Mathlib.Nat.{le_refl}

-- Each is smaller than the next, the first is at least `lo` and the last below `hi`.
abbrev pub Ascending : ℕ → ℕ → List ℕ → Type 0
Ascending lo hi [] = lo ≤ hi
Ascending lo hi (i ∷ is) = (lo ≤ i) × Ascending (suc i) hi is

Ascending-le : (lo hi : ℕ) (is : List ℕ) → Ascending lo hi is → lo ≤ hi
Ascending-le lo hi [] h = h
Ascending-le lo hi (i ∷ is) h = omega (arith, Ascending-le (suc i) hi is h.1)

Ascending-append :
    (lo mid hi : ℕ) (is js : List ℕ)
    → Ascending lo mid is
    → Ascending mid hi js
    → Ascending lo hi (is ++ js)
Ascending-append lo mid hi [] [] h k = omega arith
Ascending-append lo mid hi [] (j ∷ js) h k = (omega arith, k.1)
Ascending-append lo mid hi (i ∷ is) js h k = (h.0, Ascending-append (suc i) mid hi is js h.1 k)

module _ {D : Type 0} where
  -- The Ids in the answers to puts, in the order in which they were written.
  pub put_ids : Sent D → List ℕ
  put_ids [] = []
  put_ids ((c, put_response status i) ∷ out) = i ∷ put_ids out
  put_ids ((c, get_response status i payload pri q) ∷ out) = put_ids out
  put_ids ((c, error_response status error) ∷ out) = put_ids out

  put_ids-append : (xs ys : Sent D) → put_ids (xs ++ ys) ≡ put_ids xs ++ put_ids ys
  unfolding put_ids
  put_ids-append [] ys = refl
  put_ids-append ((c, put_response status i) ∷ out) ys = ap (λ is. i ∷ is) (put_ids-append out ys)
  put_ids-append ((c, get_response status i payload pri q) ∷ out) ys = put_ids-append out ys
  put_ids-append ((c, error_response status error) ∷ out) ys = put_ids-append out ys

  -- The loop over the jobs of a client that has gone answers no put.
  hand_over-put_ids :
      (clients : ℕ → Bool) (l l' : Release D) (j : Job D) (r : Option (ℕ × Waiter))
      → hand_over clients l j r ≡ done l'
      → put_ids l'.sent ≡ put_ids l.sent
  unfolding hand_over
  hand_over-put_ids clients l l' j none e = ground arith
  hand_over-put_ids clients l l' j (some (i, w)) e = elim (Bool-cases (clients w.client)) [
    | inl t ↦
        let sent : Sent D = l.sent ++ (w.client, job_response j) ∷ [] in
        let same : l'.sent ≡ sent = ground arith in
        rw (same, put_ids-append l.sent ((w.client, job_response j) ∷ []))
          (unfold put_ids in append-nil (put_ids l.sent))
    | inr t ↦ ground arith
  ]

  release_jobs-put_ids :
      (clients : ℕ → Bool) (c : ℕ) (l l' : Release D) (js : List (Job D))
      → release_jobs clients c l js ≡ done l'
      → put_ids l'.sent ≡ put_ids l.sent
  unfolding release_jobs release_job
  release_jobs-put_ids clients c l l' [] e = ground arith
  release_jobs-put_ids clients c l l' (j ∷ js) e =
      elim (Outcome-cases (release_job clients c l j)) [
        | inr x ↦ cc (rw x at e)
        | inl (m, x) ↦ release_jobs-put_ids clients c m l' js (rw x at e) ∙ first m x
      ]
    where
      first : (m : Release D) → release_job clients c l j ≡ done m → put_ids m.sent ≡ put_ids l.sent
      first m x = elim (Bool-cases (l.owner j.id == c)) [
        | inl t ↦
            hand_over-put_ids clients l m j (find_first (waits_for j.queue) l.waiting.front)
              (rw (release_job, t) at x)
        | inr t ↦ let same : l ≡ m = cc (rw (release_job, t) at x) in rw same
      ]

  -- The Ids given out between a state and the state and answers of one message.
  abbrev Gives : State D → State D × Sent D → Type 0
  Gives s a = Ascending s.next_id a.0.next_id (put_ids a.1)

  get-Gives :
      (s : State D) (c : ℕ) (qs : List Bytes) (wait : Option Bool)
      → Gives s (handle_get s c qs wait)
  unfolding handle_get put_ids
  get-Gives s c qs wait = elim (Option-cases (best_of s.queues none qs)) [
    | inl e ↦ rw e (ground arith)
    | inr (j, e) ↦ rw e (le_refl s.next_id)
  ]

  abort-Gives : (s : State D) (c : ℕ) (i : ℤ) → Gives s (handle_abort s c i)
  unfolding handle_abort put_ids
  abort-Gives s c i = elim (Option-cases (find_first (has_id i) s.jobs)) [
    | inl e ↦ rw e (le_refl s.next_id)
    | inr ((k, j), e) ↦ rw e (ground arith)
  ]

  delete-Gives : (s : State D) (c : ℕ) (i : ℤ) → Gives s (handle_delete s c i)
  unfolding handle_delete put_ids
  delete-Gives s c i = elim (Option-cases (find_first (has_id i) s.jobs)) [
    | inl e ↦ rw e (le_refl s.next_id)
    | inr ((k, j), e) ↦ rw e (le_refl s.next_id)
  ]

  notify-Gives :
      (s t : State D) (c : ℕ) (j : Job D) (r : Option (ℕ × Waiter)) (a : State D × Sent D)
      → t.next_id ≡ (s.next_id + 1) % 2 ^ 64
      → s.next_id + 1 < 2 ^ 63
      → notify t j ((c, put_response (status_message status_ok) s.next_id) ∷ []) r ≡ done a
      → Gives s a
  unfolding notify put_ids
  notify-Gives s t c j none a n b e =
      let q : (t, (c, put_response (status_message status_ok) s.next_id) ∷ []) ≡ a = cc in
      subst (Gives s) q (omega arith)
  notify-Gives s t c j (some (i, w)) a n b e = elim (Bool-cases (t.clients w.client)) [
    | inr x ↦ cc (rw x at e)
    | inl x ↦
        let out : Sent D =
          (c, put_response (status_message status_ok) s.next_id)
          ∷ (w.client, job_response j)
          ∷ [] in
        let q : (record t { waiters = erase_idx t.waiters i }, out) ≡ a = cc (rw x at e) in
        subst (Gives s) q (omega arith)
  ]

  put-Gives :
      (s : State D) (c : ℕ) (q : Bytes) (payload : D) (pri : ℕ) (a : State D × Sent D)
      → s.next_id + 1 < 2 ^ 63
      → handle_put s c q payload pri ≡ done a
      → Gives s a
  unfolding handle_put
  put-Gives s c q payload pri a b e =
      notify-Gives s _ c _ (find_first (waits_for q) s.waiters) a refl b e

  disconnected-Gives :
      (s : State D) (c : ℕ) (a : State D × Sent D) → handle_disconnected s c ≡ done a → Gives s a
  unfolding handle_disconnected
  disconnected-Gives s c a e =
      let clients : ℕ → Bool = update s.clients c false in
      let start : Release D = record {
        waiting = delete_waiters c s.waiters;
        queues = s.queues;
        owner = s.owner;
        sent = [];
      } in
      elim (Outcome-cases (release_jobs clients c start s.jobs)) [
        | inr x ↦ cc (rw x at e)
        | inl (l, x) ↦
            let none_put : put_ids l.sent ≡ [] =
              release_jobs-put_ids clients c start l s.jobs x ∙ (unfold put_ids in refl) in
            ground (arith, rw x at e, none_put)
      ]

  -- One message answers a put with the next Id, if it is one, and no put otherwise.
  handle-Gives :
      (s : State D) (c : ℕ) (r : Request D) (a : State D × Sent D)
      → s.next_id + 1 < 2 ^ 63
      → handle s c r ≡ done a
      → Gives s a
  unfolding handle
  handle-Gives s c connected a b e =
      let q : (handle_connected s c, []) ≡ a = cc in
      subst (Gives s) q (unfold handle_connected put_ids in le_refl s.next_id)
  handle-Gives s c disconnected a b e = disconnected-Gives s c a e
  handle-Gives s c (put q payload pri) a b e = put-Gives s c q payload pri a b e
  handle-Gives s c (get qs wait) a b e =
      let q : handle_get s c qs wait ≡ a = cc in subst (Gives s) q (get-Gives s c qs wait)
  handle-Gives s c (abort i) a b e =
      let q : handle_abort s c i ≡ a = cc in subst (Gives s) q (abort-Gives s c i)
  handle-Gives s c (delete i) a b e =
      let q : handle_delete s c i ≡ a = cc in subst (Gives s) q (delete-Gives s c i)

  -- However a run of messages goes, while its length and the counter together are below 2 ^ 63, the Ids in the answers to its puts ascend, each beyond all Ids
  -- given out before the run, so no two jobs get the same Id.
  pub run-Gives :
      (s : State D) (ms : List (ℕ × Request D)) (a : State D × Sent D)
      → s.next_id + length ms < 2 ^ 63
      → run s ms ≡ done a
      → Ascending s.next_id a.0.next_id (put_ids a.1)
  unfolding run
  run-Gives s [] a b e =
      let q : (s, []) ≡ a = cc in subst (Gives s) q (unfold put_ids in le_refl s.next_id)
  run-Gives s ((c, r) ∷ ms) a bound e = elim (Outcome-cases (handle s c r)) [
    | inr x ↦ cc (rw x at e)
    | inl (b, x) ↦ elim (Outcome-cases (run b.0 ms)) [
      | inr y ↦ cc (rw (x, y) at e)
      | inl (d, y) ↦
          let q : (d.0, b.1 ++ d.1) ≡ a = cc (rw (x, y) at e) in
          subst (Gives s) q (
            rw (put_ids-append b.1 d.1) (
              Ascending-append s.next_id b.0.next_id d.0.next_id (put_ids b.1) (put_ids d.1)
                (handle-Gives s c r b (omega arith) x)
                (run-Gives b.0 ms d (omega (arith, handle-counts s c r b x)) y)))
    ]
  ]
