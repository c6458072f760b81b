-- ===== src/Main.antt =====
-- main.go: the command line, the table of the servers, and the life of the chosen one.
mod Tests
pub mod Listing
use protohackers_go.Prelude.{
  Bool, true, false, Option, none, some, List, [], ◌∷◌, ◌++◌, if◌then◌else◌, ◌==◌, nat_eq, bytes_eq,
  Bytes, codes, join, less,
}
use mathlib.Core.List.{map}

-- The constructors in the map `servers`.
pub data ServerFunc : Type 0 where
  mob db chat test prime_time means traffic jobs : ServerFunc

-- The map `servers`, in the order of the source.
abbrev pub servers : List (Bytes × ServerFunc)
servers =
    (codes "mob", mob)
    ∷ (codes "db", db)
    ∷ (codes "chat", chat)
    ∷ (codes "test", test)
    ∷ (codes "prime-time", prime_time)
    ∷ (codes "means", means)
    ∷ (codes "traffic", traffic)
    ∷ (codes "jobs", jobs)
    ∷ []

unfoldable pub lookup : Bytes → List (Bytes × ServerFunc) → Option ServerFunc
lookup command [] = none
lookup command ((name, f) ∷ fs) =
    let rest = lookup command fs in if name == command then some f else rest

-- `slices.Sorted`.
unfoldable pub insert : Bytes → List Bytes → List Bytes
unfolding less
insert x [] = x ∷ []
insert x (y ∷ ys) = let rest = insert x ys in if less y x then y ∷ rest else x ∷ y ∷ ys

unfoldable pub sorted : List Bytes → List Bytes
unfolding insert
sorted [] = []
sorted (x ∷ xs) = insert x (sorted xs)

-- `serversList`. `keys` are the names in the order in which `maps.Keys` visits them.
unfoldable pub servers_list : List Bytes → Bytes
unfolding sorted
servers_list keys = join (sorted keys) (codes ", ")

-- What `main` does: the text it prints before `os.Exit(1)`, or the error of a constructor that it logs,
-- or the server that it starts and, when the signal comes, stops.
pub data Run : Type 0 where
  exited : Bytes → Run
  not_created : ServerFunc → Run
  stopped : ServerFunc → Bool → Run

abbrev pub no_command : List Bytes → Bytes
no_command keys =
    codes "No command provided. Valid commands: [" ++ servers_list keys ++ codes "]" ++ 10 ∷ []

abbrev pub unknown_command : Bytes → List Bytes → Bytes
unknown_command command keys =
    codes "Unknown command: "
    ++ command
    ++ codes ". Valid commands: ["
    ++ servers_list keys
    ++ codes "]"
    ++ 10 ∷ []

-- A constructor and `Stop` may fail.
abbrev pub start : (ServerFunc → Bool) → (ServerFunc → Bool) → ServerFunc → Run
start creates stops f = if creates f then stopped f (stops f) else not_created f

abbrev pub run_command :
    (ServerFunc → Bool) → (ServerFunc → Bool) → List Bytes → Bytes → Option ServerFunc → Run
run_command creates stops keys command none = exited (unknown_command command keys)
run_command creates stops keys command (some f) = start creates stops f

unfoldable pub main : (ServerFunc → Bool) → (ServerFunc → Bool) → List Bytes → List Bytes → Run
unfolding servers_list lookup
main creates stops keys args =
    let command = join args (codes " ") in
    let ran = run_command creates stops keys command (lookup command servers) in
    if command == [] then exited (no_command keys) else ran
