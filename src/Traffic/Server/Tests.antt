-- ===== src/Traffic/Server/Tests.antt =====
-- Runs of the server of traffic/traffic.go, and its theorems at concrete messages.
use protohackers_go.Prelude.{
  ◌+◌, ◌≤◌, Outcome, panic, arith, ℕ, ◌*◌, ◌/◌, ◌%◌, ◌^◌, ◌≡◌, refl, false, some, List, [], ◌∷◌,
  ltb, ◌==◌, nat_eq, bytes_eq, Bytes, bytes_beq, update, done, ◌>>=◌,
}
use protohackers_go.Traffic.Packets.{IAmCamera, Ticket, camera, dispatcher, plate_packet}
use protohackers_go.Traffic.Server.Types.{
  Float32, PlateInfo, Message, connected, received, Effect, send_ticket, ticket_set, Server,
  initial, mark,
}
use protohackers_go.Traffic.Server.Sightings.{
  Pair, order, any_day, did_receive_ticket, distance, time_diff, speed, is_speeding, make_ticket,
  find_pair, mark_days, log_days, clean,
}
use protohackers_go.Traffic.Server.Peers.{
  handle_camera, serve_road, serve_roads, handle_dispatcher, handle_connected,
}
use protohackers_go.Traffic.Server.Handle.{
  next_dispatcher, deliver, issue, clean_up, sight, sight_by, handle_plate, handle_packet, handle,
  run,
}
use protohackers_go.Traffic.Server.Marks.{marks, mark_all, Once}
use protohackers_go.Traffic.Server.Tickets.{sent_for, waiting_for}
use protohackers_go.Traffic.Server.OneTicket.{run-OneTicket}
use protohackers_go.Traffic.Server.Once.{tickets-Once}
use protohackers_go.Traffic.Packets.{IAmDispatcher}
use protohackers_go.Prelude.{arith, contains, ◌++◌, inl}
use protohackers_go.Traffic.Server.Pending.{WasSent}
use protohackers_go.Traffic.Server.Sending.{run-WasSent}
use protohackers_go.Traffic.Server.Peers.{handle_connected, handle_dispatcher}
use protohackers_go.Traffic.Server.Invariant.{IsValid, initial-IsValid}
use protohackers_go.Traffic.Server.Safe.{run-IsSafe}
use protohackers_go.Traffic.Server.Cleanup.{unticketed, clean-unticketed, clean_passes_over}

-- Fractions in place of the floating-point numbers.
abbrev fractions : Float32
fractions = record {
  F = ℕ × ℕ;
  from_uint = λ n. (n, 1);
  divide = λ a b. (a.0 * b.1, a.1 * b.0);
  multiply = λ a b. (a.0 * b.0, a.1 * b.1);
  greater = λ a b. ltb (b.0 * a.1) (a.0 * b.1);
  to_uint16 = λ a. a.0 / a.1 % 2 ^ 16;
}

abbrev un1x : Bytes
un1x = 85 ∷ 78 ∷ 49 ∷ 88 ∷ []

abbrev camera8 : IAmCamera
camera8 = record { road = 123; mile = 8; limit = 60 }

abbrev camera9 : IAmCamera
camera9 = record { road = 123; mile = 9; limit = 60 }

abbrev seen_at : ℕ → Message
seen_at timestamp = received (plate_packet (record { plate = un1x; timestamp = timestamp }))

-- Two cameras a mile apart see the plate 45 seconds apart, before a dispatcher comes for the road.
abbrev chase : List (ℕ × Message)
chase =
    (1, connected)
    ∷ (1, received (camera camera8))
    ∷ (1, seen_at 0)
    ∷ (2, connected)
    ∷ (2, received (camera camera9))
    ∷ (2, seen_at 45)
    ∷ (3, connected)
    ∷ (3, received (dispatcher (record { roads = 123 ∷ [] })))
    ∷ []

abbrev ticket : Ticket
ticket = record {
  plate = un1x;
  road = 123;
  mile1 = 8;
  timestamp1 = 0;
  mile2 = 9;
  timestamp2 = 45;
  speed = 8000;
}

caught :
    (run fractions initial chase >>= λ a. done a.1)
    ≡ done (ticket_set un1x 0 ∷ send_ticket 3 ticket ∷ [])
unfolding run initial handle handle_packet handle_connected handle_camera handle_plate sight_by
    sight issue find_pair is_speeding make_ticket next_dispatcher deliver clean_up clean order
    did_receive_ticket any_day distance time_diff speed mark_days log_days bytes_beq
    handle_dispatcher serve_roads serve_road
caught = refl

abbrev result : Outcome (Server × List Effect) → Server × List Effect
result (done a) = a
result panic = (initial, [])

abbrev after_chase : Server × List Effect
after_chase = result (run fractions initial chase)

chase_runs : run fractions initial chase ≡ done after_chase
unfolding run initial handle handle_packet handle_connected handle_camera handle_plate sight_by
    sight issue find_pair is_speeding make_ticket next_dispatcher deliver clean_up clean order
    did_receive_ticket any_day distance time_diff speed mark_days log_days bytes_beq
    handle_dispatcher serve_roads serve_road
chase_runs = refl

run-OneTicket_example :
    sent_for un1x 0 after_chase.1 + waiting_for un1x 0 (after_chase.0.tickets 123) ≤ 1
run-OneTicket_example = run-OneTicket un1x 0 fractions chase after_chase 123 chase_runs

two_cameras_pass : (a : Server × List Effect) × (run fractions initial chase ≡ done a) × IsValid a.0
unfolding initial
two_cameras_pass =
    run-IsSafe fractions initial chase initial-IsValid
      (tt, (refl, (refl, (tt, (refl, (refl, (tt, (refl, tt))))))))

abbrev sighting8 : PlateInfo
sighting8 = record { plate = un1x; timestamp = 0; road = 123; mile = 8 }

abbrev sighting9 : PlateInfo
sighting9 = record { plate = un1x; timestamp = 45; road = 123; mile = 9 }

abbrev caught_pair : Pair
caught_pair = record { prev = sighting8; current = sighting9 }

abbrev second_sighting : Server
second_sighting = record initial { cameras = λ c. some camera9; readings = λ p. sighting8 ∷ [] }

-- The clean-up leaves the second of the two readings, though its day is marked.
abbrev fined : Server × List Effect
fined = (
  record second_sighting {
    readings =
        update (update second_sighting.readings un1x (sighting8 ∷ sighting9 ∷ [])) un1x
          (sighting9 ∷ []);
    day_plates = mark (λ d p. false) 0 un1x;
    tickets = update initial.tickets 123 (ticket ∷ []);
  },
  ticket_set un1x 0 ∷ [],
)

chase_marks :
    Once second_sighting.day_plates (marks fined.1)
    × (fined.0.day_plates ≡ mark_all second_sighting.day_plates (marks fined.1))
unfolding run initial handle handle_packet handle_connected handle_camera handle_plate sight_by
    sight issue find_pair is_speeding make_ticket next_dispatcher deliver clean_up clean order
    did_receive_ticket any_day distance time_diff speed mark_days log_days bytes_beq
chase_marks = tickets-Once fractions second_sighting ((2, seen_at 45) ∷ []) fined refl

clean-unticketed_example :
    unticketed (λ d p. d == 0) (clean (λ d p. d == 0) false (sighting8 ∷ sighting9 ∷ [])) ≡ []
unfolding unticketed
clean-unticketed_example = clean-unticketed (λ d p. d == 0) (sighting8 ∷ sighting9 ∷ [])

second_reading_stays : clean (λ d p. d == 0) false (sighting8 ∷ sighting9 ∷ []) ≡ sighting9 ∷ []
unfolding clean
second_reading_stays = clean_passes_over (λ d p. d == 0) sighting8 sighting9 [] refl

-- A ticket waits for a dispatcher of road 123.
abbrev waiting : Server
waiting = record initial { tickets = update initial.tickets 123 (ticket ∷ []) }

abbrev joined : Server × List Effect
joined = (handle_connected waiting 2, [])

abbrev roads_5_123 : IAmDispatcher
roads_5_123 = record { roads = 5 ∷ 123 ∷ [] }

run-WasSent_example : WasSent ticket ([] ++ (handle_dispatcher joined.0 2 roads_5_123).1)
unfolding initial run handle handle_connected contains
run-WasSent_example =
    run-WasSent fractions ticket 123 waiting ((2, connected) ∷ []) joined 2 roads_5_123 (inl refl)
      refl refl refl refl
