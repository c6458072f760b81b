-- ===== src/Traffic/Server/OneTicket.antt =====
-- `handlingServer` in traffic/traffic.go sends at most one ticket for a plate and a day.
use protohackers_go.Prelude.{
  is_some, ap, ℕ, ◌+◌, ◌≤◌, ◌≡◌, refl, inl, inr, some, List, [], ◌∷◌, ◌++◌, arith, ltb, Bool-cases,
  Option-cases, ◌==◌, nat_eq, bytes_eq, ==→eq, Bytes, length, update, Outcome-cases, done,
}
use protohackers_go.Traffic.Packets.{
  IAmCamera, IAmDispatcher, Plate, Packet, camera, dispatcher, error_packet, plate_packet,
  ticket_packet, want_heartbeat, heartbeat,
}
use protohackers_go.Traffic.Server.Types.{
  Float32, PlateInfo, Message, connected, disconnected, received, nothing, Effect, write_error,
  Server, day_of, initial,
}
use protohackers_go.Traffic.Server.Sightings.{find_pair}
use protohackers_go.Traffic.Server.Peers.{
  already_camera, already_dispatcher, handle_want_heartbeat, handle_camera, handle_dispatcher,
  handle_connected, handle_disconnected,
}
use protohackers_go.Traffic.Server.Handle.{
  issue, clean_up, sight, not_camera, sight_by, handle_plate, handle_packet, handle, run,
}
use protohackers_go.Traffic.Server.Once.{find_pair-unticketed}
use protohackers_go.Traffic.Server.Tickets.{
  waiting_for, sent_for, Left, Spends, Spends-append, quiet-Spends, serve_roads-Spends,
}
use protohackers_go.Traffic.Server.Issued.{issue-Spends}
use mathlib.Core.Path.{subst}

module _ (p : Bytes) (d : ℕ) where
  module _ (fl : Float32) where
    sight-Spends :
        (s : Server) (cam : IAmCamera) (p1 : Plate) (a : Server × List Effect)
        → sight fl s cam p1 ≡ done a
        → Spends p d s a
    unfolding sight clean_up
    sight-Spends s cam p1 a e =
        let olds = s.readings p1.plate in
        let new : PlateInfo = record {
          plate = p1.plate;
          timestamp = p1.timestamp;
          road = cam.road;
          mile = cam.mile;
        } in
        let t : Server = record s { readings = update s.readings p1.plate (olds ++ new ∷ []) } in
        let pair = find_pair fl t.day_plates cam new olds in
        let none_sent = λ (u : Server). quiet-Spends p d s (u, []) (unfold sent_for in refl) in
        elim (Bool-cases (s.day_plates (day_of p1.timestamp) p1.plate)) [
          | inl x ↦
              let q : (s, []) ≡ a = cc (rw x at e) in subst (Spends p d s) q (none_sent s refl refl)
          | inr x ↦ elim (Bool-cases (ltb (length (olds ++ new ∷ [])) 2)) [
            | inl y ↦
                let q : (t, []) ≡ a = cc (rw (x, y) at e) in
                subst (Spends p d s) q (none_sent t refl refl)
            | inr y ↦ elim (Outcome-cases (issue fl t cam pair)) [
              | inr z ↦ cc (rw (x, y, z) at e)
              | inl (b, z) ↦
                  let q : clean_up fl p1.plate b ≡ a = cc (rw (x, y, z) at e) in
                  subst (Spends p d s) q (
                    issue-Spends p d fl t cam pair b
                      (λ found w. find_pair-unticketed fl t.day_plates cam new olds found w) z)
            ]
          ]
        ]

    quiet :
        (s : Server) (a b : Server × List Effect)
        → sent_for p d a.1 ≡ 0
        → a.0.day_plates ≡ s.day_plates
        → a.0.tickets ≡ s.tickets
        → a ≡ b
        → Spends p d s b
    quiet s a b z e f q = subst (Spends p d s) q (quiet-Spends p d s a z e f)

    dispatcher-Spends :
        (s : Server) (c : ℕ) (p1 : IAmDispatcher) → Spends p d s (handle_dispatcher s c p1)
    unfolding handle_dispatcher sent_for
    dispatcher-Spends s c p1 = elim (Bool-cases (is_some (s.dispatchers c))) [
      | inl x ↦ rw x (quiet-Spends p d s (s, write_error c already_dispatcher ∷ []) refl refl refl)
      | inr x ↦ elim (Bool-cases (is_some (s.cameras c))) [
        | inl y ↦
            rw (x, y) (quiet-Spends p d s (s, write_error c already_camera ∷ []) refl refl refl)
        | inr y ↦
            rw (x, y)
              (serve_roads-Spends p d (record s { dispatchers = update s.dispatchers c (some p1) })
                c p1.roads)
      ]
    ]

    packet-Spends :
        (s : Server) (c : ℕ) (m : Packet) (a : Server × List Effect)
        → handle_packet fl s c m ≡ done a
        → Spends p d s a
    unfolding handle_packet handle_plate sight_by handle_want_heartbeat handle_camera sent_for
    packet-Spends s c (want_heartbeat m) a e =
        quiet s (handle_want_heartbeat s c m) a (ground arith) (ground arith) (ground arith) cc
    packet-Spends s c (camera m) a e =
        quiet s (handle_camera s c m) a (ground arith) (ground arith) (ground arith) cc
    packet-Spends s c (dispatcher m) a e =
        let q : handle_dispatcher s c m ≡ a = cc in subst (Spends p d s) q (dispatcher-Spends s c m)
    packet-Spends s c (plate_packet m) a e = elim (Option-cases (s.cameras c)) [
      | inl x ↦ quiet s (s, write_error c not_camera ∷ []) a refl refl refl (cc (rw x at e))
      | inr (cam, x) ↦ sight-Spends s cam m a (rw x at e)
    ]
    packet-Spends s c (ticket_packet m) a e = quiet s (s, []) a refl refl refl cc
    packet-Spends s c (error_packet m) a e = quiet s (s, []) a refl refl refl cc
    packet-Spends s c heartbeat a e = quiet s (s, []) a refl refl refl cc

    handle-Spends :
        (s : Server) (c : ℕ) (m : Message) (a : Server × List Effect)
        → handle fl s c m ≡ done a
        → Spends p d s a
    unfolding handle handle_connected handle_disconnected sent_for
    handle-Spends s c connected a e = quiet s (handle_connected s c, []) a refl refl refl cc
    handle-Spends s c disconnected a e = quiet s (handle_disconnected s c, []) a refl refl refl cc
    handle-Spends s c nothing a e = quiet s (s, []) a refl refl refl cc
    handle-Spends s c (received m) a e = packet-Spends s c m a e

    run-Spends :
        (s : Server) (ms : List (ℕ × Message)) (a : Server × List Effect)
        → run fl s ms ≡ done a
        → Spends p d s a
    unfolding run sent_for
    run-Spends s [] a e = quiet s (s, []) a refl refl refl cc
    run-Spends s ((c, m) ∷ ms) a e = elim (Outcome-cases (handle fl s c m)) [
      | inr x ↦ cc (rw x at e)
      | inl (b, x) ↦ elim (Outcome-cases (run fl b.0 ms)) [
        | inr y ↦ cc (rw (x, y) at e)
        | inl (g, y) ↦
            let q : (g.0, b.1 ++ g.1) ≡ a = cc (rw (x, y) at e) in
            subst (Spends p d s) q
              (Spends-append p d s b g (handle-Spends s c m b x) (run-Spends b.0 ms g y))
      ]
    ]

    -- Whatever messages come to the server from its start on, in any order, at most one ticket is sent
    -- to dispatchers for a plate and a day, where a ticket is for all days from its first sighting to
    -- its second; as long as one for them waits for a dispatcher, none has been sent.
    pub run-OneTicket :
        (ms : List (ℕ × Message)) (a : Server × List Effect) (road : ℕ)
        → run fl initial ms ≡ done a
        → sent_for p d a.1 + waiting_for p d (a.0.tickets road) ≤ 1
    unfolding initial waiting_for
    run-OneTicket ms a road e =
        let (l, left, n) = run-Spends initial ms a e 1 (inr (inl (refl, refl, λ r. refl))) in
        omega (arith, n, waiting-Left l left)
      where
        waiting-Left :
            (l : ℕ) → Left p d a.0.day_plates a.0.tickets l → waiting_for p d (a.0.tickets road) ≤ l
        waiting-Left l (inl (z, m, free)) = omega (arith, free road)
        waiting-Left l (inr (inl (z, m, free))) = omega (arith, free road)
        waiting-Left l (inr (inr (z, m, (r, (one, rest))))) = elim (Bool-cases (r == road)) [
          | inl x ↦
              let same : r ≡ road = ==→eq r road x in
              omega (arith, z, ap (λ q. waiting_for p d (a.0.tickets q)) same, one)
          | inr x ↦ omega (arith, rest road x)
        ]
