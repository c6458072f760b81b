-- ===== src/Genpackets/Compiles.antt =====
-- Which structs the template of genpackets/genpackets.go suits.
use protohackers_go.Prelude.{List, nat_eq, bytes_eq}
