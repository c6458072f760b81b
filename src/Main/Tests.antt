-- ===== src/Main/Tests.antt =====
-- main.go on some command lines.
use protohackers_go.Prelude.{◌≡◌, refl, true, [], ◌∷◌, bytes_eq, bytes_beq, codes}
use protohackers_go.Main.{servers, servers_list, traffic, main, stopped}
use protohackers_go.Main.Listing.{servers_list_alphabetical}
use mathlib.Core.List.{map}
use mathlib.Core.List.Perm

servers_list_alphabetical_example :
    servers_list (map (λ s. s.0) servers)
    ≡ codes "chat, db, jobs, means, mob, prime-time, test, traffic"
servers_list_alphabetical_example =
    servers_list_alphabetical (map (λ s. s.0) servers) (Perm.refl (map (λ s. s.0) servers))

starts_traffic : main (λ f. true) (λ f. true) [] (codes "traffic" ∷ []) ≡ stopped traffic true
unfolding main bytes_beq
starts_traffic = refl
