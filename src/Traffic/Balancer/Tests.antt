-- ===== src/Traffic/Balancer/Tests.antt =====
-- The tests of traffic/balancer_test.go, and the laws at concrete balancers.
use protohackers_go.Prelude.{
  not, ◌&&◌, ◌||◌, ℕ, ◌≡◌, refl, ◌⊎◌, inr, none, some, List, [], ◌∷◌, ◌++◌, arith, ◌==◌, nat_eq,
  bytes_eq, contains, index_of, done, ◌>>=◌,
}
use protohackers_go.Traffic.Balancer.{Balancer, new_balancer, len, get, add, remove}
use protohackers_go.Traffic.Balancer.Laws.{IsValid, upcoming, gets, get_lem, full_turn}
use protohackers_go.Traffic.Balancer.Changes.{remove_lem, remove_resets, add_lem}
use mathlib.Core.List.{map}

abbrev three : Balancer ℕ
three = record { set = 1 ∷ 2 ∷ 3 ∷ []; index = 0 }

abbrev third : Balancer ℕ
third = record { set = 1 ∷ 2 ∷ 3 ∷ []; index = 2 }

adds : add (add (add new_balancer 1) 2) 3 ≡ three
unfolding add new_balancer index_of
adds = refl

gets_empty : get {A = ℕ} new_balancer ≡ done (none, new_balancer)
unfolding get new_balancer
gets_empty = refl

round_robin :
    gets 4 three ≡ done (some 1 ∷ some 2 ∷ some 3 ∷ some 1 ∷ [], record three { index = 1 })
unfolding gets get
round_robin = refl

removes : (gets 1 (remove third 3) >>= λ r. done r.0) ≡ done (some 1 ∷ [])
unfolding gets get remove index_of
removes = refl

third-IsValid : IsValid third
unfolding contains
third-IsValid = record { distinct = (refl, (refl, (refl, tt))); in_range = inr (omega arith) }

turn_of_third :
    ((len third ≡ 0) × (get third ≡ done (none, third)))
    ⊎ ((x : ℕ) × (xs : List ℕ) × (b' : Balancer ℕ) × (upcoming third ≡ x ∷ xs)
        × (get third ≡ done (some x, b'))
        × (upcoming b' ≡ xs ++ x ∷ [])
        × IsValid b')
turn_of_third = get_lem third third-IsValid

full_turn_example :
    (b' : Balancer ℕ) × (gets (len third) third ≡ done (map some (3 ∷ 1 ∷ 2 ∷ []), b'))
    × (upcoming b' ≡ 3 ∷ 1 ∷ 2 ∷ [])
    × IsValid b'
full_turn_example = full_turn third third-IsValid

remove_lem_example :
    (contains (remove third 3).set 2 ≡ (not (◌==◌ {A = ℕ} 3 2) && contains third.set 2))
    × IsValid (remove third 3)
remove_lem_example = remove_lem third 3 2 third-IsValid

first_leaves : (remove third 1).index ≡ 0
unfolding contains
first_leaves = remove_resets third 1 third-IsValid refl

seventh_joins :
    (contains (add third 7).set 2 ≡ (◌==◌ {A = ℕ} 7 2 || contains third.set 2))
    × ((add third 7).index ≡ third.index)
    × IsValid (add third 7)
seventh_joins = add_lem third 7 2 third-IsValid
