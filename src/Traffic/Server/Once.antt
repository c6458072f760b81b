-- ===== src/Traffic/Server/Once.antt =====
-- No plate gets two tickets for one day from `handlingServer` in traffic/traffic.go.
use protohackers_go.Prelude.{
  ℕ, ◌≡◌, refl, sym, ap, ◌∙◌, inl, inr, false, Option, none, some, List, [], ◌∷◌, ◌++◌, arith, ltb,
  Bool-cases, Option-cases, nat_eq, bytes_eq, Bytes, length, update, Outcome-cases, done,
}
use protohackers_go.Traffic.Packets.{
  IAmCamera, IAmDispatcher, Plate, Ticket, WantHeartbeat, Packet, camera, dispatcher, error_packet,
  plate_packet, ticket_packet, want_heartbeat, heartbeat,
}
use protohackers_go.Traffic.Balancer.{get}
use protohackers_go.Traffic.Server.Types.{
  Float32, PlateInfo, Message, connected, disconnected, received, nothing, Effect, write_error,
  DayPlates, Server, day_of,
}
use protohackers_go.Traffic.Server.Sightings.{
  Pair, prev_day, current_day, rounds, any_day, did_receive_ticket, is_speeding, make_ticket,
  find_pair, mark_days, log_days,
}
use protohackers_go.Traffic.Server.Peers.{
  handle_want_heartbeat, handle_camera, handle_dispatcher, handle_connected, handle_disconnected,
}
use protohackers_go.Traffic.Server.Handle.{
  next_dispatcher, deliver, issue, clean_up, sight, not_camera, sight_by, handle_plate,
  handle_packet, handle, run,
}
use protohackers_go.Traffic.Server.Marks.{
  marks, mark_all, Once, Keeps, marks-append, mark_all-append, Once-append, mark_days-log,
  log_days-Once, serve_roads-marks, quiet-Keeps,
}
use mathlib.Core.List.{append-nil}
use mathlib.Core.Path.{subst}

pub next_dispatcher-days :
    (s : Server) (road : ℕ) (r : Option ℕ × Server)
    → next_dispatcher s road ≡ done r
    → r.1.day_plates ≡ s.day_plates
unfolding next_dispatcher
next_dispatcher-days s road r e = elim (Option-cases (s.road_dispatchers road)) [
  | inl x ↦ ground (arith, rw (next_dispatcher, x) at e)
  | inr (b, x) ↦ elim (Outcome-cases (get b)) [
    | inr y ↦ cc (rw (next_dispatcher, x, y) at e)
    | inl (g, y) ↦ ground (arith, rw (next_dispatcher, x, y) at e)
  ]
]

deliver-quiet :
    (s : Server) (ticket : Ticket) (road : ℕ) (r : Option ℕ) (a : Server × List Effect)
    → deliver s ticket road r ≡ done a
    → (marks a.1 ≡ []) × (a.0.day_plates ≡ s.day_plates)
unfolding deliver marks
deliver-quiet s ticket road none a e = ground arith
deliver-quiet s ticket road (some d) a e = ground arith

logged-Keeps :
    (s : Server) (b : Server × List Effect) (p : Bytes) (d n : ℕ)
    → any_day s.day_plates p d n ≡ false
    → marks b.1 ≡ []
    → b.0.day_plates ≡ mark_days s.day_plates p d n
    → Keeps s (b.0, log_days p d n ++ b.1)
logged-Keeps s b p d n h m e =
    rw (marks-append (log_days p d n) b.1, m, append-nil (marks (log_days p d n)))
      (log_days-Once s.day_plates p d n h, e ∙ sym (mark_days-log s.day_plates p d n))

-- What a message and the ones after it do.
Keeps-append :
    (s : Server) (b d : Server × List Effect) → Keeps s b → Keeps b.0 d → Keeps s (d.0, b.1 ++ d.1)
Keeps-append s b d h k =
    rw (marks-append b.1 d.1, mark_all-append s.day_plates (marks b.1) (marks d.1))
      (
        Once-append s.day_plates (marks b.1) (marks d.1) h.0
            (subst (λ days. Once days (marks d.1)) h.1 k.0),
        k.1 ∙ ap (λ days. mark_all days (marks d.1)) h.1,
      )

heartbeat-Keeps : (s : Server) (c : ℕ) (p : WantHeartbeat) → Keeps s (handle_want_heartbeat s c p)
unfolding handle_want_heartbeat
heartbeat-Keeps s c p =
    quiet-Keeps s (handle_want_heartbeat s c p) (unfold marks in ground arith) (ground arith)

camera-Keeps : (s : Server) (c : ℕ) (p : IAmCamera) → Keeps s (handle_camera s c p)
unfolding handle_camera
camera-Keeps s c p =
    quiet-Keeps s (handle_camera s c p) (unfold marks in ground arith) (ground arith)

dispatcher-Keeps : (s : Server) (c : ℕ) (p : IAmDispatcher) → Keeps s (handle_dispatcher s c p)
unfolding handle_dispatcher
dispatcher-Keeps s c p =
    let t : Server = record s { dispatchers = update s.dispatchers c (some p) } in
    let (m, e) = serve_roads-marks t c p.roads in
    quiet-Keeps s (handle_dispatcher s c p) (unfold marks in ground (arith, m)) (ground (arith, e))

module _ (fl : Float32) where
  pub find_pair-unticketed :
      (days : DayPlates) (cam : IAmCamera) (new : PlateInfo) (olds : List PlateInfo) (pair : Pair)
      → find_pair fl days cam new olds ≡ some pair
      → did_receive_ticket days pair ≡ false
  unfolding find_pair is_speeding
  find_pair-unticketed days cam new [] pair e = cc
  find_pair-unticketed days cam new (old ∷ olds) pair e =
      ground (arith, find_pair-unticketed days cam new olds pair)

  issue-Keeps :
      (s : Server) (cam : IAmCamera) (r : Option Pair) (a : Server × List Effect)
      → ((pair : Pair) → r ≡ some pair → did_receive_ticket s.day_plates pair ≡ false)
      → issue fl s cam r ≡ done a
      → Keeps s a
  unfolding issue did_receive_ticket
  issue-Keeps s cam none a h e = quiet-Keeps s a (unfold marks in ground arith) (ground arith)
  issue-Keeps s cam (some pair) a h e =
      let plate = pair.current.plate in
      let n = rounds (prev_day pair) (current_day pair) in
      let d = prev_day pair in
      let marked : Server = record s { day_plates = mark_days s.day_plates plate d n } in
      elim (Outcome-cases (next_dispatcher marked pair.current.road)) [
        | inr x ↦ cc (rw x at e)
        | inl (r, x) ↦
            elim (Outcome-cases (deliver r.1 (make_ticket fl cam pair) pair.current.road r.0)) [
              | inr y ↦ cc (rw (x, y) at e)
              | inl (b, y) ↦
                  let q : (b.0, log_days plate d n ++ b.1) ≡ a = cc (rw (x, y) at e) in
                  let (m, z) = deliver-quiet r.1 _ _ r.0 b y in
                  subst (Keeps s) q (
                    logged-Keeps s b plate d n (h pair refl) m
                      (z ∙ next_dispatcher-days marked pair.current.road r x))
            ]
      ]

  sight-Keeps :
      (s : Server) (cam : IAmCamera) (p : Plate) (a : Server × List Effect)
      → sight fl s cam p ≡ done a
      → Keeps s a
  unfolding sight
  sight-Keeps s cam p a e =
      let olds = s.readings p.plate in
      let new : PlateInfo = record {
        plate = p.plate;
        timestamp = p.timestamp;
        road = cam.road;
        mile = cam.mile;
      } in
      let t : Server = record s { readings = update s.readings p.plate (olds ++ new ∷ []) } in
      elim (Bool-cases (s.day_plates (day_of p.timestamp) p.plate)) [
        | inl x ↦
            let q : (s, []) ≡ a = cc (rw x at e) in
            subst (Keeps s) q (unfold marks mark_all in (tt, refl))
        | inr x ↦ elim (Bool-cases (ltb (length (olds ++ new ∷ [])) 2)) [
          | inl y ↦
              let q : (t, []) ≡ a = cc (rw (x, y) at e) in
              subst (Keeps s) q (unfold marks mark_all in (tt, refl))
          | inr y ↦ elim (Outcome-cases (issue fl t cam (find_pair fl t.day_plates cam new olds))) [
            | inr z ↦ cc (rw (x, y, z) at e)
            | inl (b, z) ↦
                let q : clean_up fl p.plate b ≡ a = cc (rw (x, y, z) at e) in
                subst (Keeps s) q (
                  unfold clean_up in
                  issue-Keeps t cam (find_pair fl t.day_plates cam new olds) b
                    (λ pair w. find_pair-unticketed t.day_plates cam new olds pair w) z)
          ]
        ]
      ]

  plate-Keeps :
      (s : Server) (c : ℕ) (p : Plate) (cam : Option IAmCamera) (a : Server × List Effect)
      → sight_by fl s c p cam ≡ done a
      → Keeps s a
  unfolding sight_by
  plate-Keeps s c p none a e =
      let q : (s, write_error c not_camera ∷ []) ≡ a = cc in
      subst (Keeps s) q (unfold marks mark_all in (tt, refl))
  plate-Keeps s c p (some cam) a e = sight-Keeps s cam p a e

  packet-Keeps :
      (s : Server) (c : ℕ) (p : Packet) (a : Server × List Effect)
      → handle_packet fl s c p ≡ done a
      → Keeps s a
  unfolding handle_packet
  packet-Keeps s c (want_heartbeat p) a e =
      let q : handle_want_heartbeat s c p ≡ a = cc in subst (Keeps s) q (heartbeat-Keeps s c p)
  packet-Keeps s c (camera p) a e =
      let q : handle_camera s c p ≡ a = cc in subst (Keeps s) q (camera-Keeps s c p)
  packet-Keeps s c (dispatcher p) a e =
      let q : handle_dispatcher s c p ≡ a = cc in subst (Keeps s) q (dispatcher-Keeps s c p)
  packet-Keeps s c (plate_packet p) a e =
      plate-Keeps s c p (s.cameras c) a (unfold handle_plate in e)
  packet-Keeps s c (ticket_packet p) a e =
      let q : (s, []) ≡ a = cc in subst (Keeps s) q (unfold marks mark_all in (tt, refl))
  packet-Keeps s c (error_packet p) a e =
      let q : (s, []) ≡ a = cc in subst (Keeps s) q (unfold marks mark_all in (tt, refl))
  packet-Keeps s c heartbeat a e =
      let q : (s, []) ≡ a = cc in subst (Keeps s) q (unfold marks mark_all in (tt, refl))

  handle-Keeps :
      (s : Server) (c : ℕ) (m : Message) (a : Server × List Effect)
      → handle fl s c m ≡ done a
      → Keeps s a
  unfolding handle
  handle-Keeps s c connected a e =
      let q : (handle_connected s c, []) ≡ a = cc in
      subst (Keeps s) q (unfold handle_connected marks mark_all in (tt, refl))
  handle-Keeps s c disconnected a e =
      let q : (handle_disconnected s c, []) ≡ a = cc in
      subst (Keeps s) q (unfold handle_disconnected marks mark_all in (tt, refl))
  handle-Keeps s c nothing a e =
      let q : (s, []) ≡ a = cc in subst (Keeps s) q (unfold marks mark_all in (tt, refl))
  handle-Keeps s c (received p) a e = packet-Keeps s c p a e

  -- Whatever messages come, in any order, the days that tickets are set for are new ones each time:
  -- when a ticket is set for a plate and a day, no earlier ticket of the run was set for them, and
  -- the day was not marked for the plate before the run.
  pub tickets-Once :
      (s : Server) (ms : List (ℕ × Message)) (a : Server × List Effect)
      → run fl s ms ≡ done a
      → Once s.day_plates (marks a.1) × (a.0.day_plates ≡ mark_all s.day_plates (marks a.1))
  unfolding run
  tickets-Once s [] a e =
      let q : (s, []) ≡ a = cc in subst (Keeps s) q (unfold marks mark_all in (tt, refl))
  tickets-Once s ((c, m) ∷ ms) a e = elim (Outcome-cases (handle fl s c m)) [
    | inr x ↦ cc (rw x at e)
    | inl (b, x) ↦ elim (Outcome-cases (run fl b.0 ms)) [
      | inr y ↦ cc (rw (x, y) at e)
      | inl (d, y) ↦
          let q : (d.0, b.1 ++ d.1) ≡ a = cc (rw (x, y) at e) in
          subst (Keeps s) q (Keeps-append s b d (handle-Keeps s c m b x) (tickets-Once b.0 ms d y))
    ]
  ]
