-- ===== src/Traffic/Client/Delivery.antt =====
-- `HandleClient` of traffic/traffic.go hands the packets of a client to the server.
use protohackers_go.Prelude.{
  Bool, ℕ, zero, suc, ◌+◌, ◌<◌, ◌≡◌, refl, sym, ap, ◌∙◌, some, List, [], ◌∷◌, ◌++◌, arith, nat_eq,
  bytes_eq, Bytes, length, All,
}
use protohackers_go.Reader.Conn.{Stream, Result, ok, err, push, next, read, ◌>>=◌, return, bytes_in}
use protohackers_go.Reader.{read_byte, read_n}
use protohackers_go.Traffic.Packets.{
  Packet, camera, dispatcher, error_packet, plate_packet, ticket_packet, want_heartbeat, heartbeat,
  opcode, Fits,
}
use protohackers_go.Traffic.Codec.Marshal.{marshal}
use protohackers_go.Traffic.Codec.Unmarshal.{unmarshal}
use protohackers_go.Traffic.Codec.RoundTrip.{blank, unmarshal-marshal}
use protohackers_go.Traffic.Server.Types.{connected, disconnected, received}
use protohackers_go.Traffic.Client.{
  to_server, new_packet, handle_opcode, round, rounds, between, handle_client,
}
use protohackers_go.Traffic.Client.Fuel.{rounds_more, rounds-some}
use mathlib.Core.List.{map}

-- The packets that a client sends.
abbrev pub IsClientPacket : Packet → Type 0
IsClientPacket (plate_packet p) = Unit
IsClientPacket (camera p) = Unit
IsClientPacket (dispatcher p) = Unit
IsClientPacket (want_heartbeat p) = Unit
IsClientPacket p = ⊥

-- The bytes of the packets, one after the other.
abbrev pub AreBytes : List Packet → Bytes → Type 0
AreBytes [] bs = bs ≡ []
AreBytes (p ∷ ps) bs =
    (front : Bytes) × (back : Bytes) × (bs ≡ front ++ back)
    × (marshal p ≡ ok front)
    × AreBytes ps back

new_packet-opcode : (p : Packet) → IsClientPacket p → new_packet (opcode p) ≡ some (blank p)
unfolding new_packet opcode
new_packet-opcode (plate_packet p) h = refl
new_packet-opcode (camera p) h = refl
new_packet-opcode (dispatcher p) h = refl
new_packet-opcode (want_heartbeat p) h = refl
new_packet-opcode (error_packet p) h = absurd h
new_packet-opcode (ticket_packet p) h = absurd h
new_packet-opcode heartbeat h = absurd h

-- What was read before the last `return`.
last_part :
    (p : Packet) (op o : ℕ) (v : Stream) (y : Result Packet × Stream)
    → next {B = ℕ × Packet} y (λ q. return (op, q)) ≡ (ok (o, p), v)
    → (op ≡ o) × (y ≡ (ok p, v))
last_part p op o v (ok q, u) e = (cc, cc)
last_part p op o v (err x, u) e = (cc, cc)

both_parts :
    (writes : Stream → Bool) (p : Packet) (o : ℕ) (v : Stream) (x : Result ℕ × Stream)
    → new_packet o ≡ some (blank p)
    → next {B = ℕ × Packet} x (λ op. unmarshal (blank p) >>= λ q. return (op, q)) ≡ (ok (o, p), v)
    → next x (λ op. handle_opcode writes (new_packet op)) ≡ (ok (to_server (received p) ∷ []), v)
unfolding handle_opcode
both_parts writes p o v (err x, u) n e = cc
both_parts writes p o v (ok op, u) n e =
    let (same, y) = last_part p op o v (unmarshal (blank p) u) e in rw (same, n) (rw y refl)

round_lem :
    (writes : Stream → Bool) (p : Packet) (front back : Bytes)
    → IsClientPacket p
    → Fits p
    → marshal p ≡ ok front
    → round writes (push (front ++ back) []) ≡ (ok (to_server (received p) ∷ []), push back [])
unfolding round handle_opcode
round_lem writes p front back c f m =
    let (bs, e, got) = unmarshal-marshal p f back [] in
    let same : bs ≡ front = cc in
    both_parts writes p (opcode p) (push back []) (read_byte (push (front ++ back) []))
      (new_packet-opcode p c) (rw same at got)

rounds_lem :
    (writes : Stream → Bool) (n : ℕ) (ps : List Packet) (bs : Bytes)
    → length ps < n
    → All (λ p. IsClientPacket p × Fits p) ps
    → AreBytes ps bs
    → rounds writes n (push bs []) ≡ some (map (λ p. to_server (received p)) ps)
unfolding rounds
rounds_lem writes zero ps bs h f b = absurd (omega arith)
rounds_lem writes (suc n) [] bs h f b = rw b (unfold round read_byte read_n read in refl)
rounds_lem writes (suc n) (p ∷ ps) bs h f (front, back, e, m, b) =
    rw
      (
        e,
        round_lem writes p front back f.0.0 f.0.1 m,
        rounds_lem writes n ps back (omega arith) f.1 b,
      )
      refl

-- When a client sends packets that fit, one after the other in one segment, and closes the
-- connection, the server gets exactly these packets in their order, between the messages that the
-- client is connected and that it is disconnected, and nothing is answered to the client.
pub handle_client_delivers :
    (writes : Stream → Bool) (ps : List Packet) (bs : Bytes)
    → All (λ p. IsClientPacket p × Fits p) ps
    → AreBytes ps bs
    → handle_client writes (push bs [])
      ≡ some (
          to_server connected ∷ map (λ p. to_server (received p)) ps ++ to_server disconnected ∷ [])
unfolding handle_client
handle_client_delivers writes ps bs f b =
    let s = push bs [] in
    let n = bytes_in s + 1 in
    let m = length ps + 1 in
    let (es, e) = rounds-some writes n s (omega arith) in
    let long = rounds_more writes n (n + m) s es (omega arith) e in
    let right =
      rounds_more writes m (n + m) s _ (omega arith)
        (rounds_lem writes m ps bs (omega arith) f b) in
    ap between (e ∙ sym long ∙ right)
