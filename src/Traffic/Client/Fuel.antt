-- ===== src/Traffic/Client/Fuel.antt =====
-- The loop of `HandleClient` in traffic/traffic.go ends: each round takes a byte of the connection.
use protohackers_go.Prelude.{
  Bool-cases, Bool, ℕ, zero, suc, ◌+◌, ◌≤◌, ◌<◌, ◌≡◌, refl, ap, inl, inr, Option, none, some, List,
  [], ◌∷◌, ◌++◌, arith, Option-cases, nat_eq, bytes_eq,
}
use protohackers_go.Reader.Conn.{Stream, Result, ok, err, next, bytes_in}
use protohackers_go.Reader.{read_byte, read_u16, read_u32, read_u16s}
use protohackers_go.Traffic.Packets.{
  Packet, camera, dispatcher, error_packet, plate_packet, ticket_packet, want_heartbeat, heartbeat,
}
use protohackers_go.Traffic.Codec.Marshal.{marshal_error, marshal_string}
use protohackers_go.Traffic.Codec.Unmarshal.{
  unmarshal, unmarshal_string, unmarshal_camera, unmarshal_dispatcher, unmarshal_error,
  unmarshal_plate, unmarshal_ticket, unmarshal_want_heartbeat, unmarshal_heartbeat,
}
use protohackers_go.Traffic.Client.{
  Event, to_server, continue_with, new_packet, handle_opcode, round, rounds, between, handle_client,
}
use protohackers_go.Traffic.Server.Types.{connected, disconnected}
use protohackers_go.Reader.Shrinks.{
  Shrinks, >>=-Shrinks, done_reading, read_n-Shrinks, read_byte-Shrinks, read_u16-Shrinks,
  read_u32-Shrinks, read_u16s-Shrinks, read_byte-lt,
}

unmarshal_string-Shrinks : Shrinks unmarshal_string
unfolding unmarshal_string
unmarshal_string-Shrinks = >>=-Shrinks read_byte _ read_byte-Shrinks read_n-Shrinks

unmarshal_camera-Shrinks : Shrinks unmarshal_camera
unfolding unmarshal_camera
unmarshal_camera-Shrinks = >>=-Shrinks read_u16 _ read_u16-Shrinks (λ road.
    >>=-Shrinks read_u16 _ read_u16-Shrinks
      (λ mile. >>=-Shrinks read_u16 _ read_u16-Shrinks (λ limit. done_reading)))

unmarshal_dispatcher-Shrinks : Shrinks unmarshal_dispatcher
unfolding unmarshal_dispatcher
unmarshal_dispatcher-Shrinks =
    >>=-Shrinks read_byte _ read_byte-Shrinks
      (λ n. >>=-Shrinks (read_u16s n) _ (read_u16s-Shrinks n) (λ roads. done_reading))

unmarshal_plate-Shrinks : Shrinks unmarshal_plate
unfolding unmarshal_plate
unmarshal_plate-Shrinks =
    >>=-Shrinks unmarshal_string _ unmarshal_string-Shrinks
      (λ plate. >>=-Shrinks read_u32 _ read_u32-Shrinks (λ timestamp. done_reading))

unmarshal_want_heartbeat-Shrinks : Shrinks unmarshal_want_heartbeat
unfolding unmarshal_want_heartbeat
unmarshal_want_heartbeat-Shrinks =
    >>=-Shrinks read_u32 _ read_u32-Shrinks (λ interval. done_reading)

unmarshal_error-Shrinks : Shrinks unmarshal_error
unfolding unmarshal_error
unmarshal_error-Shrinks =
    >>=-Shrinks unmarshal_string _ unmarshal_string-Shrinks (λ message. done_reading)

unmarshal_ticket-Shrinks : Shrinks unmarshal_ticket
unfolding unmarshal_ticket
unmarshal_ticket-Shrinks = >>=-Shrinks unmarshal_string _ unmarshal_string-Shrinks (λ plate.
    >>=-Shrinks read_u16 _ read_u16-Shrinks (λ road.
      >>=-Shrinks read_u16 _ read_u16-Shrinks (λ mile1.
        >>=-Shrinks read_u32 _ read_u32-Shrinks (λ timestamp1.
          >>=-Shrinks read_u16 _ read_u16-Shrinks (λ mile2.
            >>=-Shrinks read_u32 _ read_u32-Shrinks
              (λ timestamp2. >>=-Shrinks read_u16 _ read_u16-Shrinks (λ speed. done_reading)))))))

unmarshal-Shrinks : (p : Packet) → Shrinks (unmarshal p)
unfolding unmarshal
unmarshal-Shrinks (camera p) =
    >>=-Shrinks unmarshal_camera _ unmarshal_camera-Shrinks (λ q. done_reading)
unmarshal-Shrinks (dispatcher p) =
    >>=-Shrinks unmarshal_dispatcher _ unmarshal_dispatcher-Shrinks (λ q. done_reading)
unmarshal-Shrinks (plate_packet p) =
    >>=-Shrinks unmarshal_plate _ unmarshal_plate-Shrinks (λ q. done_reading)
unmarshal-Shrinks (want_heartbeat p) =
    >>=-Shrinks unmarshal_want_heartbeat _ unmarshal_want_heartbeat-Shrinks (λ q. done_reading)
unmarshal-Shrinks (error_packet p) =
    >>=-Shrinks unmarshal_error _ unmarshal_error-Shrinks (λ q. done_reading)
unmarshal-Shrinks (ticket_packet p) =
    >>=-Shrinks unmarshal_ticket _ unmarshal_ticket-Shrinks (λ q. done_reading)
unmarshal-Shrinks heartbeat = unfold unmarshal_heartbeat in λ s. done_reading s

handle_opcode-Shrinks :
    (writes : Stream → Bool) (p : Option Packet) → Shrinks (handle_opcode writes p)
unfolding handle_opcode
handle_opcode-Shrinks writes (some p) =
    >>=-Shrinks (unmarshal p) _ (unmarshal-Shrinks p) (λ q. done_reading)
handle_opcode-Shrinks writes none =
    unfold marshal_error marshal_string in
    λ s. elim (Bool-cases (writes s)) [
      | inl h ↦ rw h (done_reading s)
      | inr h ↦ rw h (done_reading s)
    ]

round-lt :
    (writes : Stream → Bool) (s t : Stream) (es : List Event)
    → round writes s ≡ (ok es, t)
    → bytes_in t < bytes_in s
unfolding round
round-lt writes s t es e = round_step (read_byte s) (read_byte-lt s) e
  where
    round_step :
        (x : Result ℕ × Stream)
        → ((u : Stream) (b : ℕ) → x ≡ (ok b, u) → bytes_in u < bytes_in s)
        → next x (λ op. handle_opcode writes (new_packet op)) ≡ (ok es, t)
        → bytes_in t < bytes_in s
    round_step (ok op, u) h k = omega (
      arith,
      handle_opcode-Shrinks writes (new_packet op) u,
      h u op refl,
      ap (λ r. bytes_in r.1) k,
    )
    round_step (err x, u) h k = cc

pub rounds-some :
    (writes : Stream → Bool) (n : ℕ) (s : Stream)
    → bytes_in s < n
    → (es : List Event) × (rounds writes n s ≡ some es)
unfolding rounds
rounds-some writes zero s h = absurd (omega arith)
rounds-some writes (suc n) s h = step (λ t. rounds-some writes n t) (round writes s) refl
  where
    step :
        ((t : Stream) → bytes_in t < n → (es : List Event) × (rounds writes n t ≡ some es))
        → (x : Result (List Event) × Stream) → round writes s ≡ x
        → (es : List Event) × (continue_with x.0 (rounds writes n x.1) ≡ some es)
    step ends (ok es, t) e =
        let (fs, k) = ends t (omega (arith, round-lt writes s t es e)) in (es ++ fs, rw k refl)
    step ends (err x, t) e = ([], refl)

-- `HandleClient` ends on every connection: as many rounds as the connection has bytes, and one more,
-- are enough for its loop, and the server is told last that the client has disconnected.
pub handle_client_ends :
    (writes : Stream → Bool) (s : Stream)
    → (es : List Event) × (handle_client writes s
        ≡ some (to_server connected ∷ es ++ to_server disconnected ∷ []))
unfolding handle_client
handle_client_ends writes s =
    let (es, e) = rounds-some writes (bytes_in s + 1) s (omega arith) in (es, ap between e)

-- More fuel changes nothing.
pub rounds_more :
    (writes : Stream → Bool) (n m : ℕ) (s : Stream) (es : List Event)
    → n ≤ m
    → rounds writes n s ≡ some es
    → rounds writes m s ≡ some es
unfolding rounds
rounds_more writes zero m s es h e = cc
rounds_more writes (suc n) zero s es h e = absurd (omega arith)
rounds_more writes (suc n) (suc m) s es h e =
    step (λ t fs. rounds_more writes n m t fs (omega arith)) (round writes s) e
  where
    step :
        ((t : Stream) (fs : List Event) → rounds writes n t ≡ some fs → rounds writes m t ≡ some fs)
        → (x : Result (List Event) × Stream) → continue_with x.0 (rounds writes n x.1) ≡ some es
        → continue_with x.0 (rounds writes m x.1) ≡ some es
    step more (err x, t) k = k
    step more (ok fs, t) k = elim (Option-cases (rounds writes n t)) [
      | inl none_left ↦ cc (rw none_left at k)
      | inr (gs, e) ↦ rw (more t gs e) (rw e at k)
    ]
