-- ===== src/Traffic/Server/Marks.antt =====
-- The days that `handlingServer` in traffic/traffic.go marks as ticketed, and its log of them.
use protohackers_go.Prelude.{
  ℕ, zero, suc, ◌+◌, ◌<◌, ◌≡◌, refl, ap, ◌∙◌, false, List, [], ◌∷◌, ◌++◌, arith, nat_eq, bytes_eq,
  Bytes,
}
use protohackers_go.Traffic.Packets.{Ticket}
use protohackers_go.Traffic.Server.Types.{
  Effect, write_error, send_ticket, start_heartbeat, stop_heartbeat, ticket_set, DayPlates, Server,
  mark,
}
use protohackers_go.Traffic.Server.Sightings.{any_day, mark_days, log_days}
use protohackers_go.Traffic.Server.Peers.{serve_road, serve_roads}
use mathlib.Core.List.{map}

-- The plates and days that the log says a ticket was set for.
unfoldable pub marks : List Effect → List (Bytes × ℕ)
marks [] = []
marks (ticket_set p d ∷ out) = (p, d) ∷ marks out
marks (write_error c m ∷ out) = marks out
marks (send_ticket c t ∷ out) = marks out
marks (start_heartbeat c i ∷ out) = marks out
marks (stop_heartbeat c ∷ out) = marks out

unfoldable pub mark_all : DayPlates → List (Bytes × ℕ) → DayPlates
mark_all days [] = days
mark_all days ((p, d) ∷ ps) = mark_all (mark days d p) ps

-- Each pair is unmarked when its turn comes, so none stands in the list twice.
abbrev pub Once : DayPlates → List (Bytes × ℕ) → Type 0
Once days [] = Unit
Once days ((p, d) ∷ ps) = (days d p ≡ false) × Once (mark days d p) ps

pub marks-append : (xs ys : List Effect) → marks (xs ++ ys) ≡ marks xs ++ marks ys
unfolding marks
marks-append [] ys = refl
marks-append (ticket_set p d ∷ out) ys = ap (λ ps. (p, d) ∷ ps) (marks-append out ys)
marks-append (write_error c m ∷ out) ys = marks-append out ys
marks-append (send_ticket c t ∷ out) ys = marks-append out ys
marks-append (start_heartbeat c i ∷ out) ys = marks-append out ys
marks-append (stop_heartbeat c ∷ out) ys = marks-append out ys

pub mark_all-append :
    (days : DayPlates) (ps qs : List (Bytes × ℕ))
    → mark_all days (ps ++ qs) ≡ mark_all (mark_all days ps) qs
unfolding mark_all
mark_all-append days [] qs = refl
mark_all-append days ((p, d) ∷ ps) qs = mark_all-append (mark days d p) ps qs

pub Once-append :
    (days : DayPlates) (ps qs : List (Bytes × ℕ))
    → Once days ps
    → Once (mark_all days ps) qs
    → Once days (ps ++ qs)
unfolding mark_all
Once-append days [] qs h k = k
Once-append days ((p, d) ∷ ps) qs h k = (h.0, Once-append (mark days d p) ps qs h.1 k)

pub mark_days-log :
    (days : DayPlates) (p : Bytes) (d n : ℕ)
    → mark_all days (marks (log_days p d n)) ≡ mark_days days p d n
unfolding marks mark_all log_days mark_days
mark_days-log days p d zero = refl
mark_days-log days p d (suc n) = mark_days-log (mark days d p) p (d + 1) n

any_day-mark :
    (days : DayPlates) (p : Bytes) (d e n : ℕ)
    → d < e
    → any_day days p e n ≡ false
    → any_day (mark days d p) p e n ≡ false
unfolding any_day
any_day-mark days p d e zero h k = refl
any_day-mark days p d e (suc n) h k = ground (arith, any_day-mark days p d (e + 1) n (omega arith))

pub log_days-Once :
    (days : DayPlates) (p : Bytes) (d n : ℕ)
    → any_day days p d n ≡ false
    → Once days (marks (log_days p d n))
unfolding marks log_days any_day
log_days-Once days p d zero h = tt
log_days-Once days p d (suc n) h = (
  ground arith,
  log_days-Once (mark days d p) p (d + 1) n
      (any_day-mark days p d (d + 1) n (omega arith) (ground arith)),
)

-- What a message does to the marks, and what it logs of them.
abbrev pub Keeps : Server → Server × List Effect → Type 0
Keeps s a = Once s.day_plates (marks a.1) × (a.0.day_plates ≡ mark_all s.day_plates (marks a.1))

send-marks : (c : ℕ) (ts : List Ticket) → marks (map (send_ticket c) ts) ≡ []
unfolding marks
send-marks c [] = refl
send-marks c (t ∷ ts) = send-marks c ts

pub serve_roads-marks :
    (s : Server) (c : ℕ) (roads : List ℕ)
    → (marks (serve_roads s c roads).1 ≡ []) × ((serve_roads s c roads).0.day_plates ≡ s.day_plates)
unfolding serve_roads serve_road
serve_roads-marks s c [] = (unfold marks in refl, refl)
serve_roads-marks s c (road ∷ roads) =
    let t = (serve_road s c road).0 in
    let (m, e) = serve_roads-marks t c roads in
    (
      marks-append (map (send_ticket c) (s.tickets road)) (serve_roads t c roads).1
          ∙ rw (send-marks c (s.tickets road), m) refl,
      e,
    )

-- Nothing is marked and nothing is logged of it.
pub quiet-Keeps :
    (s : Server) (a : Server × List Effect)
    → marks a.1 ≡ []
    → a.0.day_plates ≡ s.day_plates
    → Keeps s a
unfolding mark_all
quiet-Keeps s a m e = rw m (tt, e)
