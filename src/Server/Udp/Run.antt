-- ===== src/Server/Udp/Run.antt =====
-- A run of server/udp_server.go: what each handler's channel sees.
use protohackers_go.Prelude.{
  ℕ, ◌≡◌, refl, sym, ap, ◌∙◌, ◌≢◌, Bool, true, false, not, ◌&&◌, ◌||◌, Option, none, some, List, [],
  ◌∷◌, ◌++◌, arith, if◌then◌else◌, ◌==◌, nat_eq, bytes_eq, Bytes, ==_refl, ==→eq, is_some, Outcome,
  done, panic,
}
use protohackers_go.Server.Udp.{
  UdpClient, Effect, started, delivered, closed, Input, received, deadline_exceeded, Order,
  client_of, without, receive, expire, round, run,
}
use mathlib.Core.Path.{subst}
use protohackers_go.Server.Udp.Table.{
  is_member, IsRange, HasAddresses, is_member-append, is_member-without, is_member-touch,
  next_deadline_lem,
}

-- The channel of an address, open or not, after an effect. A datagram on a closed channel, a second
-- handler beside an open channel and a second close are no steps of it.
abbrev pub channel_step : Bytes → Bool → Effect → Option Bool
channel_step a o (started b) = if b == a then (if o then none else some true) else some o
channel_step a o (delivered b datagram) = if b == a then (if o then some true else none) else some o
channel_step a o (closed b) = if b == a then (if o then some false else none) else some o

abbrev pub channel_after : Bytes → Option Bool → List Effect → Option Bool
channel_after a none es = none
channel_after a (some o) [] = some o
channel_after a (some o) (e ∷ es) = channel_after a (channel_step a o e) es

channel_after-append :
    (a : Bytes) (o : Option Bool) (es fs : List Effect)
    → channel_after a o (es ++ fs) ≡ channel_after a (channel_after a o es) fs
channel_after-append a none es fs = refl
channel_after-append a (some o) [] fs = refl
channel_after-append a (some o) (e ∷ es) fs = channel_after-append a (channel_step a o e) es fs

-- A datagram has the address of its sender, and a deadline is only exceeded if one is set.
abbrev pub IsAllowed : List UdpClient → Input → Type 0
IsAllowed cs (received now a datagram) = (a == []) ≡ false
IsAllowed cs deadline_exceeded = cs ≢ []

abbrev pub Then :
    (List UdpClient × List Effect → Type 0) → Outcome (List UdpClient × List Effect) → Type 0
Then P (done r) = P r
Then P panic = Unit

-- The inputs of a run, each allowed where it comes.
abbrev pub AreAllowed : ℕ → List UdpClient → List (Order × Input) → Type 0
AreAllowed timeout cs [] = Unit
AreAllowed timeout cs ((order, i) ∷ is) =
    IsRange order
    × IsAllowed cs i
    × Then (λ r. AreAllowed timeout r.0 is) (round timeout order cs i)

-- The channels that are open are those of the clients in the table.
abbrev pub Follows : List UdpClient → Bytes → List UdpClient × List Effect → Type 0
Follows cs a r = channel_after a (some (is_member a cs)) r.1 ≡ some (is_member a r.0)

member_of :
    (a b : Bytes) (cs : List UdpClient) (o : Option UdpClient)
    → client_of b cs ≡ o
    → (b == a) ≡ true
    → is_member a cs ≡ is_some o
member_of a b cs o e x = subst (λ a. is_member a cs ≡ is_some o) (==→eq b a x) (ap is_some e)

module _ (a b : Bytes) (o : Bool) where
  channel_step-started : ((b == a) && o) ≡ false → channel_step a o (started b) ≡ some (b == a || o)
  channel_step-started h = ground (arith, h)

  channel_step-delivered :
      (datagram : Bytes)
      → (not (b == a) || o) ≡ true
      → channel_step a o (delivered b datagram) ≡ some o
  channel_step-delivered datagram h = ground (arith, h)

  channel_step-closed :
      (not (b == a) || o) ≡ true → channel_step a o (closed b) ≡ some (not (b == a) && o)
  channel_step-closed h = ground (arith, h)

absent :
    (a b : Bytes) (cs : List UdpClient)
    → client_of b cs ≡ none
    → ((b == a) && is_member a cs) ≡ false
absent a b cs e = ground (arith, member_of a b cs none e)

present :
    (a b : Bytes) (cs : List UdpClient) (c : UdpClient)
    → client_of b cs ≡ some c
    → (not (b == a) || is_member a cs) ≡ true
present a b cs c e = ground (arith, member_of a b cs (some c) e)

receive-Follows :
    (cs : List UdpClient) (now : ℕ) (a b datagram : Bytes) (o : Option UdpClient)
    → client_of b cs ≡ o
    → Follows cs a (receive cs now b datagram o)
unfolding receive
receive-Follows cs now a b datagram none e =
    ap (λ z. channel_after a z (delivered b datagram ∷ []))
      (channel_step-started a b (is_member a cs) (absent a b cs e))
    ∙ (ap (λ z. channel_after a z [])
          (channel_step-delivered a b (b == a || is_member a cs) datagram (ground arith))
        ∙ ap some (
            sym (
              is_member-touch a b now (cs ++ record { addr = b; last_activity = now } ∷ [])
              ∙ is_member-append a cs (record { addr = b; last_activity = now }))))
receive-Follows cs now a b datagram (some c) e =
    ap (λ z. channel_after a z [])
      (channel_step-delivered a b (is_member a cs) datagram (present a b cs c e))
    ∙ ap some (sym (is_member-touch a b now cs))

expire-Follows :
    (cs : List UdpClient) (a b : Bytes) (c : UdpClient)
    → client_of b cs ≡ some c
    → Follows cs a (without b cs, closed b ∷ [])
expire-Follows cs a b c e =
    ap (λ z. channel_after a z []) (channel_step-closed a b (is_member a cs) (present a b cs c e))
    ∙ ap some (sym (is_member-without a b cs))

receive-HasAddresses :
    (cs : List UdpClient) (now : ℕ) (b datagram : Bytes) (o : Option UdpClient)
    → HasAddresses cs
    → (b == []) ≡ false
    → HasAddresses (receive cs now b datagram o).0
unfolding receive
receive-HasAddresses cs now b datagram none h k =
    is_member-touch [] b now (cs ++ record { addr = b; last_activity = now } ∷ [])
    ∙ (is_member-append [] cs (record { addr = b; last_activity = now }) ∙ rw (k, h) refl)
receive-HasAddresses cs now b datagram (some c) h k = is_member-touch [] b now cs ∙ h

-- The visits of a table that is not empty are not none.
visits_some : (order : Order) (cs : List UdpClient) → IsRange order → cs ≢ [] → order cs ≢ []
unfolding client_of
visits_some order [] range k e = k refl
visits_some order (c ∷ cs) range k e = cc (range.same (c ∷ cs) c.addr, ==_refl c.addr, e)

-- What a round that returns has to keep.
abbrev Kept : List UdpClient → List UdpClient × List Effect → Type 0
Kept cs r = HasAddresses r.0 × ((a : Bytes) → Follows cs a r)

expire-Kept :
    (cs : List UdpClient) (b : Bytes) (o : Option UdpClient)
    → HasAddresses cs
    → client_of b cs ≡ o
    → is_some o ≡ true
    → (r : List UdpClient × List Effect) × (expire cs b o ≡ done r) × Kept cs r
unfolding expire
expire-Kept cs b none h e s = cc
expire-Kept cs b (some c) h e s = (
  (without b cs, closed b ∷ []),
  refl,
  (is_member-without [] b cs ∙ ground (arith, h), (λ a. expire-Follows cs a b c e)),
)

round-Kept :
    (timeout : ℕ) (order : Order) (cs : List UdpClient) (i : Input)
    → IsRange order
    → HasAddresses cs
    → IsAllowed cs i
    → (r : List UdpClient × List Effect) × (round timeout order cs i ≡ done r) × Kept cs r
unfolding round
round-Kept timeout order cs (received now b datagram) range h k = (
  receive cs now b datagram (client_of b cs),
  refl,
  (
    receive-HasAddresses cs now b datagram (client_of b cs) h k,
    (λ a. receive-Follows cs now a b datagram (client_of b cs) refl),
  ),
)
round-Kept timeout order cs deadline_exceeded range h k =
    let (c, p, q, i, m) =
      next_deadline_lem timeout (order cs) (visits_some order cs range k) (range.same cs [] ∙ h) in
    rw p (expire-Kept cs c.addr (client_of c.addr cs) h refl (sym (range.same cs c.addr) ∙ m))

-- From a table without an empty address, the server never panics, if a `range` visits the clients
-- of the table, datagrams come with an address, and a deadline is exceeded only while there are
-- clients. For every address, no datagram is put on a channel that is closed, none is closed twice,
-- and no handler is started while there is one; the channels that are open after the run are those
-- of the clients in the table.
pub run-Follows :
    (timeout : ℕ) (cs : List UdpClient) (is : List (Order × Input)) (a : Bytes)
    → HasAddresses cs
    → AreAllowed timeout cs is
    → (r : List UdpClient × List Effect) × (run timeout cs is ≡ done r)
      × (channel_after a (some (is_member a cs)) r.1 ≡ some (is_member a r.0))
unfolding run
run-Follows timeout cs [] a h k = ((cs, []), refl, refl)
run-Follows timeout cs ((order, i) ∷ is) a h (range, allowed, k) =
    let (r, e, (w, f)) = round-Kept timeout order cs i range h allowed in
    let (t, g, z) = run-Follows timeout r.0 is a w (rw e at k) in
    (
      (t.0, r.1 ++ t.1),
      rw (e, g) refl,
      channel_after-append a (some (is_member a cs)) r.1 t.1
          ∙ (ap (λ o. channel_after a o t.1) (f a) ∙ z),
    )
