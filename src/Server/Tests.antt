-- ===== src/Server/Tests.antt =====
-- The servers of server/ on a few inputs.
use protohackers_go.Prelude.{
  Any, ◌+◌, ◌≤◌, ◌≡◌, refl, true, some, List, [], ◌∷◌, arith, nat_eq, bytes_eq, bytes_beq, codes,
  All, Distinct, done,
}
use protohackers_go.Server.Udp.{
  UdpClient, Effect, Input, received, deadline_exceeded, Order, client_of, next_deadline, round,
  run,
}
use protohackers_go.Server.Udp.Table.{IsRange, is_member, next_deadline_lem}
use protohackers_go.Server.Udp.Run.{channel_after, run-Follows}
use protohackers_go.Server.Tcp.{Accepted, connection, failed, ids, ids-Distinct}

abbrev in_order : Order
in_order cs = cs

in_order-IsRange : IsRange in_order
in_order-IsRange = record { same = λ cs a. refl }

-- Two clients, of which the second one times out.
abbrev inputs : List (Order × Input)
inputs =
    (in_order, received 50 (codes "b") (codes "version"))
    ∷ (in_order, received 60 (codes "a") (codes "x=1"))
    ∷ (in_order, received 70 (codes "b") (codes "x"))
    ∷ (in_order, deadline_exceeded)
    ∷ []

run-Follows_example :
    (r : List UdpClient × List Effect) × (run 10 [] inputs ≡ done r)
    × (channel_after (codes "a") (some (is_member (codes "a") [])) r.1
        ≡ some (is_member (codes "a") r.0))
unfolding client_of bytes_beq round
run-Follows_example = run-Follows 10 [] inputs (codes "a") refl (
  in_order-IsRange,
  refl,
  (in_order-IsRange, refl, (in_order-IsRange, refl, (in_order-IsRange, (λ e. cc), tt))),
)

abbrev table : List UdpClient
table =
    record { addr = codes "a"; last_activity = 60 }
    ∷ record { addr = codes "b"; last_activity = 50 }
    ∷ []

next_deadline_lem_example :
    (c : UdpClient) × (next_deadline 10 table (0, []) ≡ (c.last_activity + 10, c.addr))
    × All (λ (d : UdpClient). c.last_activity ≤ d.last_activity) table
    × Any (λ d. d ≡ c) table
    × (is_member c.addr table ≡ true)
unfolding client_of bytes_beq
next_deadline_lem_example = next_deadline_lem 10 table (λ e. cc) refl

abbrev accepted : List Accepted
accepted = connection ∷ connection ∷ connection ∷ failed ∷ []

three_ids : Distinct (ids accepted) × All (λ i. 1 ≤ i) (ids accepted)
three_ids = ids-Distinct accepted (omega arith)
