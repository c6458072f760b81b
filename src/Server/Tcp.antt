-- ===== src/Server/Tcp.antt =====
-- server/tcp_server.go: the loop that accepts connections, the numbers that they get, and the goroutine
-- of each.
use protohackers_go.Prelude.{
  Option, none, some, ◌≢◌, ℕ, ◌+◌, ◌%◌, ◌^◌, ◌≤◌, ◌<◌, ◌≡◌, refl, false, List, [], ◌∷◌, arith, ◌==◌,
  nat_eq, bytes_eq, length, All, All-mono, contains, Distinct,
}

-- What `Accept` returns: a connection, `net.ErrClosed`, or another error, which ends the program.
pub data Accepted : Type 0 where
  connection closed failed : Accepted

-- The Ids of the connections in their order, from `nextId` on, a `uint` of 64 bits.
unfoldable pub serve : ℕ → List Accepted → List ℕ
serve next_id [] = []
serve next_id (connection ∷ accepts) = next_id ∷ serve ((next_id + 1) % 2 ^ 64) accepts
serve next_id (closed ∷ accepts) = []
serve next_id (failed ∷ accepts) = []

-- How the loop ends: by `Stop`, or by the end of the program; `none` is a loop that still waits.
pub data LoopEnd : Type 0 where
  stopped fatal : LoopEnd

unfoldable pub loop_end : List Accepted → Option LoopEnd
loop_end [] = none
loop_end (connection ∷ accepts) = loop_end accepts
loop_end (closed ∷ accepts) = some stopped
loop_end (failed ∷ accepts) = some fatal

-- The errors of a handler that the goroutine of a connection tells apart.
pub data HandlerError : Type 0 where
  net_closed end_of_file reset other_error : HandlerError

-- What the goroutine does around the handler: its log lines, and the `Close` that it defers.
pub data ConnEvent : Type 0 where
  log_connected log_client_closed log_not_ok log_done close_conn : ConnEvent

abbrev pub report : Option HandlerError → ConnEvent
report none = log_done
report (some net_closed) = log_done
report (some end_of_file) = log_client_closed
report (some reset) = log_client_closed
report (some other_error) = log_not_ok

-- The goroutine, for the error with which the handler returns.
unfoldable pub handle_conn : Option HandlerError → List ConnEvent
handle_conn result = log_connected ∷ report result ∷ close_conn ∷ []

-- The Ids that `Start` gives, from 1 on.
unfoldable pub ids : List Accepted → List ℕ
unfolding serve
ids accepts = serve 1 accepts

serve-above :
    (n : ℕ) (accepts : List Accepted)
    → n + length accepts < 2 ^ 64
    → All (λ i. n ≤ i) (serve n accepts)
unfolding serve
serve-above n [] h = tt
serve-above n (connection ∷ accepts) h =
    let next : (n + 1) % 2 ^ 64 ≡ n + 1 = omega arith in
    (
      omega arith,
      rw next (
          All-mono (λ i. n + 1 ≤ i) (λ i. n ≤ i) (serve (n + 1) accepts) (λ i k. omega arith)
            (serve-above (n + 1) accepts (omega arith))),
    )
serve-above n (closed ∷ accepts) h = tt
serve-above n (failed ∷ accepts) h = tt

not_contained : (xs : List ℕ) (n : ℕ) → All (λ i. n + 1 ≤ i) xs → contains xs n ≡ false
unfolding contains
not_contained [] n h = refl
not_contained (x ∷ xs) n h =
    let ne : (x == n) ≡ false = ground arith in rw ne (not_contained xs n h.1)

serve-Distinct :
    (n : ℕ) (accepts : List Accepted) → n + length accepts < 2 ^ 64 → Distinct (serve n accepts)
unfolding serve
serve-Distinct n [] h = tt
serve-Distinct n (connection ∷ accepts) h =
    let next : (n + 1) % 2 ^ 64 ≡ n + 1 = omega arith in
    rw next (
      not_contained (serve (n + 1) accepts) n (serve-above (n + 1) accepts (omega arith)),
      serve-Distinct (n + 1) accepts (omega arith),
    )
serve-Distinct n (closed ∷ accepts) h = tt
serve-Distinct n (failed ∷ accepts) h = tt

-- No two of fewer than 2 ^ 64 - 1 connections get the same Id, and none gets the Id 0.
pub ids-Distinct :
    (accepts : List Accepted)
    → length accepts + 1 < 2 ^ 64
    → Distinct (ids accepts) × All (λ i. 1 ≤ i) (ids accepts)
unfolding ids
ids-Distinct accepts h =
    (serve-Distinct 1 accepts (omega arith), serve-above 1 accepts (omega arith))

pub no_Id_zero : (xs : List ℕ) → All (λ i. 1 ≤ i) xs → All (λ i. i ≢ 0) xs
no_Id_zero [] h = tt
no_Id_zero (x ∷ xs) h = (omega (arith, h.0), no_Id_zero xs h.1)
