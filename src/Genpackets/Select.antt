-- ===== src/Genpackets/Select.antt =====
-- The flag `-types` of genpackets/genpackets.go: which structs `slices.BinarySearch` finds in it.
use protohackers_go.Prelude.{
  less, less_irrefl, less_below, less_asym, ◌≡◌, refl, sym, ◌∙◌, inl, inr, Bool, true, false, List,
  [], ◌∷◌, ◌++◌, arith, Bool-cases, if◌then◌else◌, ◌==◌, nat_eq, bytes_eq, ==→eq, Bytes, contains,
}
use protohackers_go.Genpackets.Source.{
  StructInfo, Spec, struct_spec, type_spec, other_spec, Decl, gen_decl, other_decl, search_from,
  binary_search, is_selected, structs_of_specs, structs_of,
}
use protohackers_go.Genpackets.Search.{IsSorted, binary_search-contains}

-- The structs of a list that a test keeps, in their order.
abbrev pub keep : (StructInfo → Bool) → List StructInfo → List StructInfo
keep q [] = []
keep q (s ∷ ss) = let rest = keep q ss in if q s then s ∷ rest else rest

keep-append :
    (q : StructInfo → Bool) (ss ts : List StructInfo) → keep q (ss ++ ts) ≡ keep q ss ++ keep q ts
keep-append q [] ts = refl
keep-append q (s ∷ ss) ts = ground (arith, keep-append q ss ts)

module _ (types : List Bytes) (q : Bytes → Bool)
    (same : (n : Bytes) → is_selected types n ≡ q n) where
  structs_of_specs-keep :
      (specs : List Spec)
      → structs_of_specs types specs ≡ keep (λ s. q s.name) (structs_of_specs [] specs)
  unfolding structs_of_specs
  structs_of_specs-keep [] = refl
  structs_of_specs-keep (struct_spec name fields ∷ specs) =
      rw (same name, structs_of_specs-keep specs) refl
  structs_of_specs-keep (type_spec name ∷ specs) = structs_of_specs-keep specs
  structs_of_specs-keep (other_spec ∷ specs) = structs_of_specs-keep specs

  structs_of-keep :
      (decls : List Decl) → structs_of types decls ≡ keep (λ s. q s.name) (structs_of [] decls)
  unfolding structs_of
  structs_of-keep [] = refl
  structs_of-keep (gen_decl specs ∷ decls) =
      rw (structs_of_specs-keep specs, structs_of-keep decls)
        (sym (keep-append (λ s. q s.name) (structs_of_specs [] specs) (structs_of [] decls)))
  structs_of-keep (other_decl ∷ decls) = structs_of-keep decls

selected_sorted :
    (t : Bytes) (ts : List Bytes)
    → IsSorted (t ∷ ts)
    → (n : Bytes) → is_selected (t ∷ ts) n ≡ contains (t ∷ ts) n
unfolding is_selected
selected_sorted t ts sorted n = binary_search-contains (t ∷ ts) n sorted

-- n ≤ a < b
not_between : (n a b : Bytes) → less a n ≡ false → less a b ≡ true → less b n ≡ false
not_between n a b h k = elim (Bool-cases (less b n)) [
  | inl l ↦
      let q : less n b ≡ true = less_below n a b h k in
      let q' : less n n ≡ true = less_below n b n (less_asym n b q) l in
      let no : less n n ≡ false = less_irrefl n in cc
  | inr l ↦ l
]

differ : (n a b : Bytes) → less a n ≡ false → less a b ≡ true → (b == n) ≡ false
differ n a b h k = elim (Bool-cases (b == n)) [
  | inl e ↦
      let q : less n b ≡ true = less_below n a b h k in
      let no : less n n ≡ true = rw (==→eq b n e) at q in
      let q' : less n n ≡ false = less_irrefl n in cc
  | inr e ↦ e
]

-- The loop looks at `a` first, and then at `b` only if the name is not above `a`.
selected_descending :
    (a b : Bytes) → less a b ≡ true → (n : Bytes) → is_selected (b ∷ a ∷ []) n ≡ false
unfolding is_selected binary_search search_from
selected_descending a b h n = elim (Bool-cases (less a n)) [
  | inl above ↦ rw above refl
  | inr not_above ↦
      let low : less b n ≡ false = not_between n a b not_above h in
      rw (not_above, low) (differ n a b not_above h)
]

keep_none : (ss : List StructInfo) → keep (λ s. false) ss ≡ []
keep_none [] = refl
keep_none (s ∷ ss) = keep_none ss

-- If the names that `-types` gives are in ascending order, the structs of the file that are written are
-- those whose names it gives, in the order of the file.
pub structs_of_sorted :
    (t : Bytes) (ts : List Bytes) (decls : List Decl)
    → IsSorted (t ∷ ts)
    → structs_of (t ∷ ts) decls ≡ keep (λ s. contains (t ∷ ts) s.name) (structs_of [] decls)
structs_of_sorted t ts decls sorted =
    structs_of-keep (t ∷ ts) (contains (t ∷ ts)) (selected_sorted t ts sorted) decls

-- Of two names in descending order neither is found, nor any other, so no struct is written at all.
pub structs_of_descending :
    (a b : Bytes) (decls : List Decl) → less a b ≡ true → structs_of (b ∷ a ∷ []) decls ≡ []
structs_of_descending a b decls h =
    structs_of-keep (b ∷ a ∷ []) (λ n. false) (selected_descending a b h) decls
    ∙ keep_none (structs_of [] decls)
