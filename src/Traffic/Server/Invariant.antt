-- ===== src/Traffic/Server/Invariant.antt =====
-- The dispatchers that `handlingServer` in traffic/traffic.go writes to.
use protohackers_go.Prelude.{
  is_some, ℕ, ◌≡◌, refl, sym, ap, ◌∙◌, inl, inr, Bool, true, Option, none, some, List, [], ◌∷◌,
  arith, Bool-cases, Option-cases, ◌==◌, nat_eq, bytes_eq, ==→eq, contains, update, done,
}
use protohackers_go.Traffic.Packets.{IAmDispatcher}
use protohackers_go.Traffic.Balancer.{Balancer, new_balancer, len, add, remove}
use protohackers_go.Traffic.Server.Types.{Message, connected, Server, initial}
use protohackers_go.Traffic.Server.Peers.{serve_road, serve_roads, leave_road, balancer_of}
use protohackers_go.Traffic.Server.Handle.{next_dispatcher}
use protohackers_go.Traffic.Balancer.Laws.{new_balancer-IsValid}
use protohackers_go.Traffic.Balancer.Changes.{add_members, remove_members}
use protohackers_go.Traffic.Balancer.Members.{get-Returns}
use protohackers_go.Traffic.Balancer.Laws as Balancer
use mathlib.Core.Path.{subst}

-- The balancer of a road: no dispatcher twice, its index in range, and all of them registered.
abbrev pub IsServing : (ℕ → Option IAmDispatcher) → Option (Balancer ℕ) → Type 0
IsServing ds none = Unit
IsServing ds (some b) =
    Balancer.IsValid b × ((d : ℕ) → contains b.set d ≡ true → is_some (ds d) ≡ true)

-- Each dispatcher is a client, and each road is served by dispatchers.
pub record IsValid (s : Server) : Type 0 where
  pub known : (d : ℕ) → is_some (s.dispatchers d) ≡ true → s.clients d ≡ true
  pub serving : (road : ℕ) → IsServing s.dispatchers (s.road_dispatchers road)

-- The client of a message is connected, unless the message says that it connects.
abbrev pub IsFrom : (ℕ → Bool) → ℕ → Message → Type 0
IsFrom clients c connected = Unit
IsFrom clients c m = clients c ≡ true

-- The server starts in a valid state.
pub initial-IsValid : IsValid initial
unfolding initial
initial-IsValid = record { known = λ d h. cc; serving = λ road. tt }

removed-dispatchers :
    (ds : ℕ → Option IAmDispatcher) (c : ℕ) (b : Balancer ℕ)
    → Balancer.IsValid b
    → ((d : ℕ) → contains b.set d ≡ true → is_some (ds d) ≡ true)
    → (d : ℕ) → contains (remove b c).set d ≡ true
    → is_some (update ds c none d) ≡ true
removed-dispatchers ds c b v h d m =
    let (gone, kept, w) = remove_members b c d v in
    elim (Bool-cases (c == d)) [
      | inl x ↦ let q : c ≡ d = ==→eq c d x in cc
      | inr x ↦ ground (arith, kept x, h d)
    ]

pub leave_road-IsServing :
    (ds : ℕ → Option IAmDispatcher) (c : ℕ) (o : Option (Balancer ℕ))
    → IsServing ds o
    → IsServing (update ds c none) (leave_road c o)
unfolding leave_road
leave_road-IsServing ds c none h = tt
leave_road-IsServing ds c (some b) (v, h) = elim (Bool-cases (len (remove b c) == 0)) [
  | inl x ↦ rw x tt
  | inr x ↦ let (gone, kept, w) = remove_members b c c v in rw x (w, removed-dispatchers ds c b v h)
]

-- A balancer that gets the dispatcher `c`.
add-IsServing :
    (ds : ℕ → Option IAmDispatcher) (c : ℕ) (b : Balancer ℕ)
    → is_some (ds c) ≡ true
    → IsServing ds (some b)
    → IsServing ds (some (add b c))
add-IsServing ds c b h (v, k) = (
  (let (now, kept, i, w) = add_members b c c v in w),
  λ d m.
      let (now, kept, i, w) = add_members b c d v in
      elim (Bool-cases (c == d)) [
        | inl x ↦ let q : c ≡ d = ==→eq c d x in rw q at h
        | inr x ↦ k d (sym (kept x) ∙ m)
      ],
)

join_road-IsServing :
    (ds : ℕ → Option IAmDispatcher) (c : ℕ) (o : Option (Balancer ℕ))
    → is_some (ds c) ≡ true
    → IsServing ds o
    → IsServing ds (some (add (balancer_of o) c))
join_road-IsServing ds c none h k =
    add-IsServing ds c new_balancer h
      (new_balancer-IsValid, λ d m. (unfold contains new_balancer in cc))
join_road-IsServing ds c (some b) h k = add-IsServing ds c b h k

-- A change of one road of the map.
update-IsServing :
    (ds : ℕ → Option IAmDispatcher) (roads : ℕ → Option (Balancer ℕ)) (road : ℕ)
    (o : Option (Balancer ℕ))
    → IsServing ds o
    → ((r : ℕ) → IsServing ds (roads r))
    → (r : ℕ) → IsServing ds (update roads road o r)
update-IsServing ds roads road o h k r = elim (Bool-cases (road == r)) [
  | inl x ↦ rw x h
  | inr x ↦ rw x (k r)
]

pub serve_roads-IsValid :
    (s : Server) (c : ℕ) (roads : List ℕ)
    → is_some (s.dispatchers c) ≡ true
    → IsValid s
    → IsValid (serve_roads s c roads).0
unfolding serve_roads serve_road
serve_roads-IsValid s c [] h v = v
serve_roads-IsValid s c (road ∷ roads) h v =
    serve_roads-IsValid (serve_road s c road).0 c roads h record {
      known = v.known;
      serving =
          update-IsServing s.dispatchers s.road_dispatchers road _
            (join_road-IsServing s.dispatchers c (s.road_dispatchers road) h (v.serving road))
            v.serving;
    }

-- `rd.Get()` does not panic, and the dispatcher it names is a client.
pub next_dispatcher-IsValid :
    (s : Server) (road : ℕ)
    → IsValid s
    → (r : Option ℕ × Server) × (next_dispatcher s road ≡ done r)
      × IsValid r.1
      × (r.1.clients ≡ s.clients)
      × ((d : ℕ) → r.0 ≡ some d → r.1.clients d ≡ true)
unfolding next_dispatcher
next_dispatcher-IsValid s road v = elim (Option-cases (s.road_dispatchers road)) [
  | inl x ↦ ((none, s), rw (x, next_dispatcher) refl, v, refl, λ d n. cc)
  | inr (b, x) ↦
      let (w, h) : IsServing s.dispatchers (some b) =
        subst (IsServing s.dispatchers) x (v.serving road) in
      let (r, g, (same, turn), w') = get-Returns b w in
      (
        (r.0, record s { road_dispatchers = update s.road_dispatchers road (some r.1) }),
        rw (x, g, next_dispatcher) refl,
        record {
          known = v.known;
          serving =
              update-IsServing s.dispatchers s.road_dispatchers road (some r.1)
                (w', λ d m. h d (ap (λ set. contains set d) (sym same) ∙ m)) v.serving;
        },
        refl,
        λ d n. v.known d (h d (turn d n)),
      )
]

pub serve_roads-clients :
    (s : Server) (c : ℕ) (roads : List ℕ) → (serve_roads s c roads).0.clients ≡ s.clients
unfolding serve_roads serve_road
serve_roads-clients s c [] = refl
serve_roads-clients s c (road ∷ roads) = serve_roads-clients (serve_road s c road).0 c roads
