-- ===== src/Server/Udp.antt =====
-- server/udp_server.go: the table of the clients by their addresses.
pub mod Table
pub mod Run
use protohackers_go.Prelude.{
  ℕ, zero, suc, ◌+◌, ◌-◌, ◌*◌, ◌/◌, ◌%◌, ◌^◌, ◌≤◌, ◌<◌, ◌≡◌, refl, sym, ap, ◌∙◌, ◌≢◌, ◌↔◌, ◌⊎◌, inl,
  inr, Bool, true, false, not, ◌&&◌, ◌||◌, Option, none, some, List, [], ◌∷◌, ◌++◌, arith, ltb, leb,
  if◌then◌else◌, Bool-cases, Option-cases, Eq, ◌==◌, nat_eq, bytes_eq, Bytes, bytes_beq,
  bytes_beq_iff, ==_refl, ==→eq, ==_sym_false, codes, is_some, is_alphanumeric, all_of, digits,
  decimal, join, trim_left, trim_right, lines_from, read_lines, length, set, concat, get_elem?,
  take, drop, replicate, All, append_nil, length-append, length-take, length-drop, length-replicate,
  take-append, drop-append, take-append-drop, take_all, drop_all, split_at, List-cases,
  index_of-some, length_pos, All-append, All-mono, All-zip, Any, erase_idx, erase_idx-All,
  length-erase_idx, delete_func, delete_func-All, contains, index_of, find_first, find_first-some,
  find_first-none, All-get_elem?, contains-append, index_of-none, index_of-lt, Distinct,
  Distinct-append, contains-erase_idx_ne, contains-erase_idx_le, erase_idx-Distinct,
  contains-erase_idx_self, update, Outcome, Outcome-cases, done, panic, ◌>>=◌, Returns, >>=-Returns,
}

-- A `*UDPClient` in the map `clients`, under the key `addr`. Times are in nanoseconds.
pub record UdpClient : Type 0 where
  pub addr : Bytes
  pub last_activity : ℕ

-- What is done with the clients: a handler started, a datagram put on `Msgs`, `Msgs` closed.
pub data Effect : Type 0 where
  started : Bytes → Effect
  delivered : Bytes → Bytes → Effect
  closed : Bytes → Effect

-- What `ReadFrom` returns, and when: a datagram of an address, or `os.ErrDeadlineExceeded`.
pub data Input : Type 0 where
  received : ℕ → Bytes → Bytes → Input
  deadline_exceeded : Input

-- The order in which the `range` over the map visits it, which Go leaves open.
abbrev pub Order : Type 0
Order = List UdpClient → List UdpClient

unfoldable pub client_of : Bytes → List UdpClient → Option UdpClient
client_of a [] = none
client_of a (c ∷ cs) = let rest = client_of a cs in if c.addr == a then some c else rest

-- `deadline` and `deadline_addr` after the loop over the clients.
abbrev pub earlier : ℕ → UdpClient → ℕ × Bytes → ℕ × Bytes
earlier timeout c (deadline, a) =
    if a == [] || ltb (c.last_activity + timeout) deadline
    then (c.last_activity + timeout, c.addr)
    else (deadline, a)

unfoldable pub next_deadline : ℕ → List UdpClient → ℕ × Bytes → ℕ × Bytes
next_deadline timeout [] acc = acc
next_deadline timeout (c ∷ cs) acc = next_deadline timeout cs (earlier timeout c acc)

-- `delete(clients, addr)`.
unfoldable pub without : Bytes → List UdpClient → List UdpClient
without a cs = delete_func (λ (c : UdpClient). c.addr == a) cs

-- `c.lastActivity = now`, through the pointer in the map.
unfoldable pub touch : Bytes → ℕ → List UdpClient → List UdpClient
touch a now [] = []
touch a now (c ∷ cs) =
    (if c.addr == a then record c { last_activity = now } else c) ∷ touch a now cs

-- A datagram, with the client that is in the map.
unfoldable pub receive :
    List UdpClient → ℕ → Bytes → Bytes → Option UdpClient → List UdpClient × List Effect
unfolding touch
receive clients now a datagram none = (
  touch a now (clients ++ record { addr = a; last_activity = now } ∷ []),
  started a ∷ delivered a datagram ∷ [],
)
receive clients now a datagram (some c) = (touch a now clients, delivered a datagram ∷ [])

-- The deadline is exceeded; without a client under `deadline_addr` it is a nil pointer.
unfoldable pub expire :
    List UdpClient → Bytes → Option UdpClient → Outcome (List UdpClient × List Effect)
unfolding without
expire clients a none = panic
expire clients a (some c) = done (without a clients, closed a ∷ [])

-- One round of the loop.
unfoldable pub round : ℕ → Order → List UdpClient → Input → Outcome (List UdpClient × List Effect)
unfolding receive expire client_of next_deadline
round timeout order clients (received now a datagram) =
    done (receive clients now a datagram (client_of a clients))
round timeout order clients deadline_exceeded =
    let (deadline, a) = next_deadline timeout (order clients) (0, []) in
    expire clients a (client_of a clients)

unfoldable pub run :
    ℕ → List UdpClient → List (Order × Input) → Outcome (List UdpClient × List Effect)
unfolding round
run timeout clients [] = done (clients, [])
run timeout clients ((order, i) ∷ is) =
    round timeout order clients i >>= λ a. run timeout a.0 is >>= λ b. done (b.0, a.1 ++ b.1)

-- `Write`: its error, for what `WriteTo` of the socket returns.
pub data WriteError : Type 0 where
  too_large not_written partially_sent : WriteError

abbrev pub written : Bytes → Option ℕ → Option WriteError
written p none = some not_written
written p (some n) = if n == length p then none else some partially_sent

unfoldable pub write : (Bytes → Option ℕ) → Bytes → Option WriteError
write write_to p = if ltb 65507 (length p) then some too_large else written p (write_to p)
