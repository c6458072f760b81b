-- ===== src/Traffic/Heartbeat.antt =====
-- `handleHeartbeath` of traffic/traffic.go: the goroutine that writes heartbeats to a client.
use protohackers_go.Prelude.{
  Bool, false, All, Bool-cases, inl, inr, ℕ, zero, suc, ◌≡◌, refl, ap, List, [], ◌∷◌, ◌++◌,
  if◌then◌else◌, ◌==◌, ltb, nat_eq, bytes_eq, Bytes, length, replicate, Outcome, done, panic,
}
use protohackers_go.Prelude.Int.{ℤ, pos, negsuc}
use protohackers_go.Traffic.Durations.{Float64, duration}
use protohackers_go.Reader.Conn.{Result, ok, err}
use protohackers_go.Traffic.Packets.{opcode}
use protohackers_go.Traffic.Codec.Marshal.{marshal_heartbeat}

-- `Write` of the client: the number of bytes written, `net.ErrClosed` or `io.EOF`, or another error.
pub data Write : Type 0 where
  wrote : ℕ → Write
  gone : Write
  failed : Write

-- What the `select` takes: the context is done, or a tick and what comes of the `Write` behind it.
pub data Tick : Type 0 where
  ctx_done : Tick
  tick : Write → Tick

-- What the goroutine does: the bytes it hands to `Write`, the errors it logs, and its `return`.
pub data Beat : Type 0 where
  write : Bytes → Beat
  log_error : Beat
  returned : Beat

-- Behind the `Write` of a tick.
abbrev pub written : Bytes → Write → List Beat → List Beat
written data_out (wrote n) rest = if n == length data_out then rest else log_error ∷ returned ∷ []
written data_out gone rest = returned ∷ []
written data_out failed rest = log_error ∷ returned ∷ []

abbrev pub send : Result Bytes → Write → List Beat → List Beat
send (err e) w rest = log_error ∷ returned ∷ []
send (ok data_out) w rest = write data_out ∷ written data_out w rest

-- The loop. It waits where the list ends.
unfoldable pub beats : List Tick → List Beat
unfolding marshal_heartbeat
beats [] = []
beats (ctx_done ∷ ts) = returned ∷ []
beats (tick w ∷ ts) = send marshal_heartbeat w (beats ts)

-- `time.NewTicker` panics on a duration that is not positive.
abbrev pub is_positive : ℤ → Bool
is_positive (pos n) = ltb 0 n
is_positive (negsuc n) = false

unfoldable pub handle_heartbeat : Float64 → ℕ → List Tick → Outcome (List Beat)
unfolding beats duration
handle_heartbeat fl interval ticks =
    if is_positive (duration fl interval) then done (beats ticks) else panic

-- While the writes succeed, one byte is written at each tick, and nothing once the context is done.
pub beats_until :
    (k : ℕ) (more : List Tick)
    → beats (replicate k (tick (wrote 1)) ++ ctx_done ∷ more)
      ≡ replicate k (write (0x41 ∷ [])) ++ returned ∷ []
unfolding beats marshal_heartbeat opcode
beats_until zero more = refl
beats_until (suc k) more = ap (λ t. write (0x41 ∷ []) ∷ t) (beats_until k more)

-- What is written is the one byte of a heartbeat.
abbrev pub IsBeat : Beat → Type 0
IsBeat (write bs) = bs ≡ 0x41 ∷ []
IsBeat b = Unit

-- The goroutine returns, at the latest when its context is done, and has written heartbeats only.
abbrev pub Returned : List Beat → Type 0
Returned bs = (out : List Beat) × (bs ≡ out ++ returned ∷ []) × All IsBeat out

pub beats-Returned : (ts more : List Tick) → Returned (beats (ts ++ ctx_done ∷ more))
unfolding beats marshal_heartbeat opcode
beats-Returned [] more = ([], refl, tt)
beats-Returned (ctx_done ∷ ts) more = ([], refl, tt)
beats-Returned (tick gone ∷ ts) more = (write (0x41 ∷ []) ∷ [], refl, (refl, tt))
beats-Returned (tick failed ∷ ts) more =
    (write (0x41 ∷ []) ∷ log_error ∷ [], refl, (refl, (tt, tt)))
beats-Returned (tick (wrote n) ∷ ts) more = elim (Bool-cases (n == 1)) [
  | inl whole ↦
      let (out, e, h) = beats-Returned ts more in
      (write (0x41 ∷ []) ∷ out, rw whole (ap (λ t. write (0x41 ∷ []) ∷ t) e), (refl, h))
  | inr part ↦ (write (0x41 ∷ []) ∷ log_error ∷ [], rw part refl, (refl, (tt, tt)))
]
