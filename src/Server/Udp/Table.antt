-- ===== src/Server/Udp/Table.antt =====
-- The table of server/udp_server.go: who is in it, and whose deadline comes first.
use protohackers_go.Prelude.{
  ℕ, ◌+◌, ◌≤◌, ◌≡◌, refl, sym, ◌≢◌, inl, inr, Bool, true, false, not, ◌&&◌, ◌||◌, List, [], ◌∷◌,
  ◌++◌, arith, ltb, Bool-cases, ◌==◌, nat_eq, bytes_eq, Bytes, bytes_beq, ==_refl, ==→eq,
  ==_sym_false, is_some, All, Any, delete_func,
}
use protohackers_go.Server.Udp.{UdpClient, Order, client_of, next_deadline, without, touch}
use mathlib.Core.Path.{subst}

abbrev pub is_member : Bytes → List UdpClient → Bool
is_member a cs = is_some (client_of a cs)

-- A `range` visits the clients of the map.
pub record IsRange (order : Order) : Type 0 where
  pub same : (cs : List UdpClient) (a : Bytes) → is_member a (order cs) ≡ is_member a cs

-- No address is the empty string.
abbrev pub HasAddresses : List UdpClient → Type 0
HasAddresses cs = is_member [] cs ≡ false

pub is_member-append :
    (a : Bytes) (cs : List UdpClient) (c : UdpClient)
    → is_member a (cs ++ c ∷ []) ≡ (c.addr == a || is_member a cs)
unfolding client_of
is_member-append a [] c = ground arith
is_member-append a (d ∷ cs) c = ground (arith, is_member-append a cs c)

pub is_member-without :
    (a b : Bytes) (cs : List UdpClient)
    → is_member a (without b cs) ≡ (not (b == a) && is_member a cs)
unfolding client_of without delete_func bytes_beq
is_member-without a b [] = ground arith
is_member-without a b (c ∷ cs) =
    let rest = is_member-without a b cs in
    elim (Bool-cases (c.addr == b)) [
      | inl x ↦
          let q : c.addr ≡ b = ==→eq c.addr b x in
          elim (Bool-cases (b == a)) [
            | inl y ↦ rw (x, y) (rw y at rest)
            | inr y ↦
                let z : (c.addr == a) ≡ false = subst (λ b. (b == a) ≡ false) (sym q) y in
                rw (x, y, z) (rw y at rest)
          ]
      | inr x ↦ elim (Bool-cases (c.addr == a)) [
        | inl y ↦
            let q : c.addr ≡ a = ==→eq c.addr a y in
            let z : (b == a) ≡ false = ==_sym_false a b (subst (λ a. (a == b) ≡ false) q x) in
            rw (x, y, z) refl
        | inr y ↦ rw (x, y) rest
      ]
    ]

pub is_member-touch :
    (a b : Bytes) (now : ℕ) (cs : List UdpClient) → is_member a (touch b now cs) ≡ is_member a cs
unfolding client_of touch
is_member-touch a b now [] = refl
is_member-touch a b now (c ∷ cs) = ground (arith, is_member-touch a b now cs)

member_behind :
    (a : Bytes) (e : UdpClient) (cs : List UdpClient)
    → is_member a cs ≡ true
    → is_member a (e ∷ cs) ≡ true
unfolding client_of
member_behind a e cs h = ground (arith, h)

member_around :
    (a : Bytes) (e d : UdpClient) (cs : List UdpClient)
    → is_member a (e ∷ cs) ≡ true
    → is_member a (e ∷ d ∷ cs) ≡ true
unfolding client_of
member_around a e d cs h = ground (arith, h)

pub head_address :
    (c : UdpClient) (cs : List UdpClient)
    → HasAddresses (c ∷ cs)
    → ((c.addr == []) ≡ false) × HasAddresses cs
unfolding client_of
head_address c cs h = (ground (arith, h), ground (arith, h))

Any-around :
    (P : UdpClient → Type 0) (e d : UdpClient) (cs : List UdpClient)
    → Any P (e ∷ cs)
    → Any P (e ∷ d ∷ cs)
Any-around P e d cs (inl h) = inl h
Any-around P e d cs (inr h) = inr (inr h)

-- The loop from the client `e` on.
from_client :
    (timeout : ℕ) (cs : List UdpClient) (e : UdpClient)
    → (e.addr == []) ≡ false
    → HasAddresses cs
    → (c : UdpClient) × (next_deadline timeout cs (e.last_activity + timeout, e.addr)
        ≡ (c.last_activity + timeout, c.addr))
      × (c.last_activity ≤ e.last_activity)
      × All (λ (d : UdpClient). c.last_activity ≤ d.last_activity) cs
      × Any (λ d. d ≡ c) (e ∷ cs)
      × (is_member c.addr (e ∷ cs) ≡ true)
unfolding next_deadline client_of bytes_beq
from_client timeout [] e h k = (e, refl, omega arith, tt, inl refl, rw (==_refl e.addr) refl)
from_client timeout (d ∷ cs) e h k =
    let (some_address, rest) = head_address d cs k in
    elim (Bool-cases (ltb (d.last_activity + timeout) (e.last_activity + timeout))) [
      | inl x ↦
          let (c, p, q, r, i, m) = from_client timeout cs d some_address rest in
          (c, rw (h, x) p, ground arith, (q, r), inr i, member_behind c.addr e (d ∷ cs) m)
      | inr x ↦
          let (c, p, q, r, i, m) = from_client timeout cs e h rest in
          (
            c,
            rw (h, x) p,
            q,
            (ground arith, r),
            Any-around (λ f. f ≡ c) e d cs i,
            member_around c.addr e d cs m,
          )
    ]

-- Where there is a client, and no address is empty, the deadline of the socket is that of the client
-- of the table that has been silent for longest, whatever the order in which the clients are visited,
-- and the loop names this client.
pub next_deadline_lem :
    (timeout : ℕ) (cs : List UdpClient)
    → cs ≢ []
    → HasAddresses cs
    → (c : UdpClient) × (next_deadline timeout cs (0, []) ≡ (c.last_activity + timeout, c.addr))
      × All (λ (d : UdpClient). c.last_activity ≤ d.last_activity) cs
      × Any (λ d. d ≡ c) cs
      × (is_member c.addr cs ≡ true)
unfolding next_deadline bytes_beq
next_deadline_lem timeout [] h k = absurd (h refl)
next_deadline_lem timeout (c ∷ cs) h k =
    let (some_address, rest) = head_address c cs k in
    let (e, p, q, r, i, m) = from_client timeout cs c some_address rest in (e, p, (q, r), i, m)
