-- ===== src/Jobcentre/Internal.antt =====
-- The loop of `internal` in jobcentre/jobcentre.go: one message after the other.
use protohackers_go.Prelude.{ℕ, List, [], ◌∷◌, ◌++◌, nat_eq, bytes_eq, Outcome, done, ◌>>=◌}
use protohackers_go.Jobcentre.Types.{
  Request, connected, disconnected, put, get, abort, delete, State, Sent,
}
use protohackers_go.Jobcentre.Requests.{
  handle_connected, handle_put, handle_get, handle_abort, handle_delete,
}
use protohackers_go.Jobcentre.Disconnect.{handle_disconnected}

module _ {D : Type 0} where
  -- One round of the loop of `internal`.
  unfoldable pub handle : State D → ℕ → Request D → Outcome (State D × Sent D)
  handle s c connected = done (handle_connected s c, [])
  handle s c disconnected = handle_disconnected s c
  handle s c (put q payload pri) = handle_put s c q payload pri
  handle s c (get qs wait) = done (handle_get s c qs wait)
  handle s c (abort i) = done (handle_abort s c i)
  handle s c (delete i) = done (handle_delete s c i)

  unfoldable pub run : State D → List (ℕ × Request D) → Outcome (State D × Sent D)
  run s [] = done (s, [])
  run s ((c, r) ∷ ms) = handle s c r >>= λ a. run a.0 ms >>= λ b. done (b.0, a.1 ++ b.1)
