-- ===== src/Server/Interleaving.antt =====
-- The connections of server/tcp_server.go run side by side: each sends its messages in its own order,
-- and a goroutine takes the messages of all of them from one channel.
use protohackers_go.Prelude.{
  ◌≤◌, inl, inr, arith, length, Option-cases, ℕ, zero, suc, Option, none, some, List, [], ◌∷◌,
  nat_eq, bytes_eq, All,
}
use mathlib.Core.List.{map}

module _ {M : Type 0} where
  -- The connection at the place `n` of the list sends its next message, if it has one.
  abbrev pub sent_first : ℕ → List M → List (ℕ × List M) → Option ((ℕ × M) × List (ℕ × List M))
  sent_first i [] ps = none
  sent_first i (m ∷ ms) ps = some ((i, m), (i, ms) ∷ ps)

  abbrev pub behind :
      ℕ × List M → Option ((ℕ × M) × List (ℕ × List M)) → Option ((ℕ × M) × List (ℕ × List M))
  behind q none = none
  behind q (some (e, ps)) = some (e, q ∷ ps)

  unfoldable pub take_turn : ℕ → List (ℕ × List M) → Option ((ℕ × M) × List (ℕ × List M))
  take_turn n [] = none
  take_turn zero ((i, ms) ∷ ps) = sent_first i ms ps
  take_turn (suc n) (q ∷ ps) = behind q (take_turn n ps)

  -- The messages on the channel, for a list of choices of the scheduler.
  abbrev pub taken :
      (List (ℕ × List M) → List (ℕ × M))
      → List (ℕ × List M)
      → Option ((ℕ × M) × List (ℕ × List M))
      → List (ℕ × M)
  taken go ps none = go ps
  taken go ps (some (e, qs)) = e ∷ go qs

  unfoldable pub interleave : List ℕ → List (ℕ × List M) → List (ℕ × M)
  unfolding take_turn
  interleave [] ps = []
  interleave (n ∷ ns) ps = taken (interleave ns) ps (take_turn n ps)

  -- No more messages than choices.
  pub interleave-length :
      (ns : List ℕ) (ps : List (ℕ × List M)) → length (interleave ns ps) ≤ length ns
  unfolding interleave
  interleave-length [] ps = omega arith
  interleave-length (n ∷ ns) ps = elim (Option-cases (take_turn n ps)) [
    | inl e ↦ rw e (omega (arith, interleave-length ns ps))
    | inr ((m, qs), e) ↦ rw e (omega (arith, interleave-length ns qs))
  ]

  -- The connections with some Ids, each with what it sends.
  abbrev pub sessions : (ℕ → List M) → List ℕ → List (ℕ × List M)
  sessions sent ids = map (λ i. (i, sent i)) ids

  -- What holds of every message that is sent holds on the channel.
  FromAll : (ℕ → M → Type 0) → Option ((ℕ × M) × List (ℕ × List M)) → Type 0
  FromAll P none = Unit
  FromAll P (some (e, qs)) = P e.0 e.1 × All (λ q. All (P q.0) q.1) qs

  behind-FromAll :
      (P : ℕ → M → Type 0) (q : ℕ × List M) (o : Option ((ℕ × M) × List (ℕ × List M)))
      → All (P q.0) q.1
      → FromAll P o
      → FromAll P (behind q o)
  unfolding FromAll
  behind-FromAll P q none h g = tt
  behind-FromAll P q (some (e, qs)) h g = (g.0, (h, g.1))

  take_turn-FromAll :
      (P : ℕ → M → Type 0) (n : ℕ) (ps : List (ℕ × List M))
      → All (λ q. All (P q.0) q.1) ps
      → FromAll P (take_turn n ps)
  unfolding take_turn FromAll
  take_turn-FromAll P n [] h = tt
  take_turn-FromAll P zero ((i, []) ∷ ps) h = tt
  take_turn-FromAll P zero ((i, m ∷ ms) ∷ ps) h = (h.0.0, (h.0.1, h.1))
  take_turn-FromAll P (suc n) (q ∷ ps) h =
      behind-FromAll P q (take_turn n ps) h.0 (take_turn-FromAll P n ps h.1)

  interleave-All_from :
      (P : ℕ → M → Type 0) (ns : List ℕ) (ps : List (ℕ × List M))
      → All (λ q. All (P q.0) q.1) ps
      → All (λ e. P e.0 e.1) (interleave ns ps)
  unfolding interleave FromAll
  interleave-All_from P [] ps h = tt
  interleave-All_from P (n ∷ ns) ps h =
      taken-All (λ qs h. interleave-All_from P ns qs h) (take_turn n ps)
        (take_turn-FromAll P n ps h)
    where
      taken-All :
          ((qs : List (ℕ × List M))
            → All (λ q. All (P q.0) q.1) qs
            → All (λ e. P e.0 e.1) (interleave ns qs))
          → (o : Option ((ℕ × M) × List (ℕ × List M))) → FromAll P o
          → All (λ e. P e.0 e.1) (taken (interleave ns) ps o)
      taken-All go none g = go ps h
      taken-All go (some (e, qs)) g = (g.0, go qs g.1)

  pub interleave-All :
      (P : ℕ → M → Type 0) (ns : List ℕ) (ids : List ℕ) (sent : ℕ → List M)
      → All (λ i. All (P i) (sent i)) ids
      → All (λ e. P e.0 e.1) (interleave ns (sessions sent ids))
  interleave-All P ns ids sent h = interleave-All_from P ns (sessions sent ids) (each ids h)
    where
      each :
          (is : List ℕ)
          → All (λ i. All (P i) (sent i)) is
          → All (λ q. All (P q.0) q.1) (sessions sent is)
      each [] h = tt
      each (i ∷ is) h = (h.0, each is h.1)

pub All-constant {ℓ} : {A : Type ℓ} (P : Type 0) → P → (xs : List A) → All (λ x. P) xs
All-constant P h [] = tt
All-constant P h (x ∷ xs) = (h, All-constant P h xs)
