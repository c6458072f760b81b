-- ===== src/Main/Listing.antt =====
-- The list of the servers that main.go prints.
use protohackers_go.Prelude.{
  ◌≡◌, refl, sym, ap, ◌∙◌, inl, inr, List, [], ◌∷◌, Bool-cases, Bytes, bytes_eq, nat_eq, codes,
  less, less_antisym, less_below, less_asym,
}
use protohackers_go.Main.{servers, insert, sorted, servers_list}
use mathlib.Core.Path.{subst}
use mathlib.Core.List.{map, foldr, Perm}
use mathlib.Core.List.Perm

insert_same :
    (x y : Bytes) (zs : List Bytes) → x ≡ y → insert x (insert y zs) ≡ insert y (insert x zs)
insert_same x y zs e = subst (λ w. insert x (insert w zs) ≡ insert w (insert x zs)) e refl

-- Two strings are inserted in either order.
insert-insert : (x y : Bytes) (zs : List Bytes) → insert x (insert y zs) ≡ insert y (insert x zs)
unfolding insert
insert-insert x y [] = elim (Bool-cases (less y x)) [
  | inl h ↦ rw (h, less_asym y x h) refl
  | inr h ↦ elim (Bool-cases (less x y)) [
    | inl k ↦ rw (h, k) refl
    | inr k ↦ rw (less_antisym x y k h) refl
  ]
]
insert-insert x y (z ∷ zs) = elim (Bool-cases (less z x)) [
  | inl a ↦ elim (Bool-cases (less z y)) [
    | inl b ↦ rw (a, b, a) (ap (λ t. z ∷ t) (insert-insert x y zs))
    | inr b ↦ rw (a, b, less_below y z x b a, a) refl
  ]
  | inr a ↦ elim (Bool-cases (less z y)) [
    | inl b ↦ rw (b, a, less_below x z y a b, b) refl
    | inr b ↦ elim (Bool-cases (less y x)) [
      | inl h ↦ rw (a, b, h, less_asym y x h, a) refl
      | inr h ↦ elim (Bool-cases (less x y)) [
        | inl k ↦ rw (a, b, h, k) refl
        | inr k ↦ insert_same x y (z ∷ zs) (less_antisym x y k h)
      ]
    ]
  ]
]

sorted-foldr : (xs : List Bytes) → sorted xs ≡ foldr insert [] xs
unfolding sorted
sorted-foldr [] = refl
sorted-foldr (x ∷ xs) = rw (sorted-foldr xs) refl

sorted-Perm : {xs ys : List Bytes} → Perm xs ys → sorted xs ≡ sorted ys
sorted-Perm {xs} {ys} p =
    sorted-foldr xs ∙ Perm.foldr-eq (hlevel) insert insert-insert p [] ∙ sym (sorted-foldr ys)

-- In whatever order `maps.Keys` visits the names of the servers, the list that is printed is the same,
-- in the order of the alphabet.
pub servers_list_alphabetical :
    (keys : List Bytes)
    → Perm keys (map (λ s. s.0) servers)
    → servers_list keys ≡ codes "chat, db, jobs, means, mob, prime-time, test, traffic"
unfolding servers_list less
servers_list_alphabetical keys p = rw (sorted-Perm p) refl
