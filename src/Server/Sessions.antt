-- ===== src/Server/Sessions.antt =====
-- The order of messages of the connections of server/tcp_server.go: each connects before it speaks, and
-- speaks until it disconnects, whatever the scheduler chooses.
use protohackers_go.Prelude.{
  ℕ, zero, suc, ◌≡◌, ◌⊎◌, ==→eq, refl, ap, inl, inr, Bool, true, false, Option, none, some, List,
  [], ◌∷◌, arith, Bool-cases, ◌==◌, nat_eq, bytes_eq, ==_refl, ==_sym_false, All, contains,
  Distinct, update,
}
use mathlib.Core.List.{map}
use protohackers_go.Server.Interleaving.{take_turn, behind, taken, interleave, sessions}

-- What a message says of its connection.
pub data Kind : Type 0 where
  comes says goes : Kind

abbrev pub after : (ℕ → Bool) → ℕ → Kind → ℕ → Bool
after p c comes = update p c true
after p c says = p
after p c goes = update p c false

-- A connection comes once, and then speaks until it goes. `p` are the connections that are there.
abbrev pub IsNext : (ℕ → Bool) → ℕ → Kind → Type 0
IsNext p c comes = p c ≡ false
IsNext p c says = p c ≡ true
IsNext p c goes = p c ≡ true

module _ {M : Type 0} (kind : M → Kind) where
  abbrev pub IsTrace : (ℕ → Bool) → List (ℕ × M) → Type 0
  IsTrace p [] = Unit
  IsTrace p ((c, m) ∷ t) = IsNext p c (kind m) × IsTrace (after p c (kind m)) t

  -- What a connection still sends once it has come, what it sends from the start, and what it sends
  -- where `p` are the connections that are there.
  abbrev pub Speaks : List M → Type 0
  Speaks [] = Unit
  Speaks (m ∷ ms) = (kind m ≡ says) × Speaks ms ⊎ (kind m ≡ goes) × (ms ≡ [])

  abbrev pub IsSession : List M → Type 0
  IsSession [] = Unit
  IsSession (m ∷ ms) = (kind m ≡ comes) × Speaks ms

  abbrev pub IsReady : (ℕ → Bool) → ℕ → List M → Type 0
  IsReady p i [] = Unit
  IsReady p i (m ∷ ms) = (p i ≡ false) × IsSession (m ∷ ms) ⊎ (p i ≡ true) × Speaks (m ∷ ms)

  AllReady : (ℕ → Bool) → List (ℕ × List M) → Type 0
  AllReady p ps = All (λ q. IsReady p q.0 q.1) ps

  spoken-IsReady : (p : ℕ → Bool) (i : ℕ) (ms : List M) → p i ≡ true → Speaks ms → IsReady p i ms
  spoken-IsReady p i [] h k = tt
  spoken-IsReady p i (m ∷ ms) h k = inr (h, k)

  -- A message that is sent is one that may come next, and its connection may go on.
  sent-IsReady :
      (p : ℕ → Bool) (i : ℕ) (m : M) (ms : List M)
      → IsReady p i (m ∷ ms)
      → IsNext p i (kind m) × IsReady (after p i (kind m)) i ms
  sent-IsReady p i m ms (inl (h, (k, r))) =
      rw k (h, spoken-IsReady (update p i true) i ms (ground arith) r)
  sent-IsReady p i m ms (inr (h, inl (k, r))) = rw k (h, spoken-IsReady p i ms h r)
  sent-IsReady p i m ms (inr (h, inr (k, r))) = rw (k, r) (h, tt)

  -- The other connections do not notice.
  after_other : (p : ℕ → Bool) (i j : ℕ) (k : Kind) → (i == j) ≡ false → after p i k j ≡ p j
  after_other p i j comes h = ground arith
  after_other p i j says h = refl
  after_other p i j goes h = ground arith

  other-IsReady :
      (p : ℕ → Bool) (i j : ℕ) (k : Kind) (ms : List M)
      → (i == j) ≡ false
      → IsReady p j ms
      → IsReady (after p i k) j ms
  other-IsReady p i j k [] h r = tt
  other-IsReady p i j k (m ∷ ms) h r = rw (after_other p i j k h) r

  ids_of : List (ℕ × List M) → List ℕ
  ids_of ps = map (λ q. q.0) ps

  others-AllReady :
      (p : ℕ → Bool) (i : ℕ) (k : Kind) (ps : List (ℕ × List M))
      → contains (ids_of ps) i ≡ false
      → AllReady p ps
      → AllReady (after p i k) ps
  unfolding contains AllReady ids_of
  others-AllReady p i k [] h r = tt
  others-AllReady p i k ((j, ms) ∷ ps) h r = (
    other-IsReady p i j k ms (==_sym_false j i (ground arith)) r.0,
    others-AllReady p i k ps (ground arith) r.1,
  )

  differ : (xs : List ℕ) (i j : ℕ) → contains xs i ≡ true → contains xs j ≡ false → (i == j) ≡ false
  differ xs i j h k = elim (Bool-cases (i == j)) [
    | inl e ↦ let same : i ≡ j = ==→eq i j e in cc
    | inr e ↦ e
  ]

  -- What a turn leaves, if there was a message to send.
  GoodTurn : (ℕ → Bool) → List (ℕ × List M) → Option ((ℕ × M) × List (ℕ × List M)) → Type 0
  GoodTurn p ps none = Unit
  GoodTurn p ps (some ((i, m), qs)) =
      IsNext p i (kind m)
      × AllReady (after p i (kind m)) qs
      × (ids_of qs ≡ ids_of ps)
      × (contains (ids_of ps) i ≡ true)

  behind-GoodTurn :
      (p : ℕ → Bool) (j : ℕ) (ms : List M) (ps : List (ℕ × List M))
      (o : Option ((ℕ × M) × List (ℕ × List M)))
      → contains (ids_of ps) j ≡ false
      → IsReady p j ms
      → GoodTurn p ps o
      → GoodTurn p ((j, ms) ∷ ps) (behind (j, ms) o)
  unfolding contains AllReady ids_of GoodTurn
  behind-GoodTurn p j ms ps none h r g = tt
  behind-GoodTurn p j ms ps (some ((i, m), qs)) h r g = (
    g.0,
    (other-IsReady p i j (kind m) ms (differ (ids_of ps) i j g.3 h) r, g.1),
    ap (λ is. j ∷ is) g.2,
    ground (arith, g.3),
  )

  take_turn-GoodTurn :
      (n : ℕ) (p : ℕ → Bool) (ps : List (ℕ × List M))
      → Distinct (ids_of ps)
      → AllReady p ps
      → GoodTurn p ps (take_turn n ps)
  unfolding take_turn contains AllReady ids_of GoodTurn
  take_turn-GoodTurn n p [] d r = tt
  take_turn-GoodTurn zero p ((i, []) ∷ ps) d r = tt
  take_turn-GoodTurn zero p ((i, m ∷ ms) ∷ ps) d r =
      let (next, later) = sent-IsReady p i m ms r.0 in
      (next, (later, others-AllReady p i (kind m) ps d.0 r.1), refl, rw (==_refl i) refl)
  take_turn-GoodTurn (suc n) p ((j, ms) ∷ ps) d r =
      behind-GoodTurn p j ms ps (take_turn n ps) d.0 r.0 (take_turn-GoodTurn n p ps d.1 r.1)

  -- Whatever the scheduler chooses, connections with distinct Ids give a trace.
  interleave-IsTrace_from :
      (ns : List ℕ) (p : ℕ → Bool) (ps : List (ℕ × List M))
      → Distinct (ids_of ps)
      → AllReady p ps
      → IsTrace p (interleave ns ps)
  unfolding interleave GoodTurn
  interleave-IsTrace_from [] p ps d r = tt
  interleave-IsTrace_from (n ∷ ns) p ps d r =
      taken-IsTrace (λ q qs d r. interleave-IsTrace_from ns q qs d r) (take_turn n ps)
        (take_turn-GoodTurn n p ps d r)
    where
      taken-IsTrace :
          ((q : ℕ → Bool) (qs : List (ℕ × List M))
            → Distinct (ids_of qs)
            → AllReady q qs
            → IsTrace q (interleave ns qs))
          → (o : Option ((ℕ × M) × List (ℕ × List M))) → GoodTurn p ps o
          → IsTrace p (taken (interleave ns) ps o)
      taken-IsTrace go none g = go p ps d r
      taken-IsTrace go (some ((i, m), qs)) g = (g.0, go (after p i (kind m)) qs (rw g.2 d) g.1)

  ids_of-sessions : (sent : ℕ → List M) (ids : List ℕ) → ids_of (sessions sent ids) ≡ ids
  unfolding ids_of
  ids_of-sessions sent [] = refl
  ids_of-sessions sent (i ∷ ids) = ap (λ is. i ∷ is) (ids_of-sessions sent ids)

  session-IsReady : (i : ℕ) (ms : List M) → IsSession ms → IsReady (λ c. false) i ms
  session-IsReady i [] h = tt
  session-IsReady i (m ∷ ms) h = inl (refl, h)

  sessions-AllReady :
      (sent : ℕ → List M) (ids : List ℕ)
      → ((i : ℕ) → IsSession (sent i))
      → AllReady (λ c. false) (sessions sent ids)
  unfolding AllReady
  sessions-AllReady sent [] h = tt
  sessions-AllReady sent (i ∷ ids) h =
      (session-IsReady i (sent i) (h i), sessions-AllReady sent ids h)

  -- Whatever the scheduler chooses, every connection comes before it speaks and speaks no more once it
  -- has gone, if each sends its messages so and no two have the same Id.
  pub interleave-IsTrace :
      (ns : List ℕ) (ids : List ℕ) (sent : ℕ → List M)
      → Distinct ids
      → ((i : ℕ) → IsSession (sent i))
      → IsTrace (λ c. false) (interleave ns (sessions sent ids))
  interleave-IsTrace ns ids sent d h =
      interleave-IsTrace_from ns (λ c. false) (sessions sent ids) (rw (ids_of-sessions sent ids) d)
        (sessions-AllReady sent ids h)
