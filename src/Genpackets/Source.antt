-- ===== src/Genpackets/Source.antt =====
-- The first half of `main` in genpackets/genpackets.go: the structs of the parsed file that the flags
-- select. Strings are lists of bytes.
use protohackers_go.Prelude.{
  less, ℕ, zero, suc, ◌+◌, ◌/◌, Bool, true, false, Option, none, some, List, [], ◌∷◌, ◌++◌, ltb,
  if◌then◌else◌, ◌==◌, nat_eq, bytes_eq, Bytes, codes, length, get_elem?,
}
use protohackers_go.Mob.{trim_space}
use mathlib.Core.List.{map}

-- `ast.Expr`, as far as the program tells the types apart. `slice` is an `ast.ArrayType` whose `Len` is
-- nil, `array` one with a `Len`.
pub data Expr : Type 0 where
  ident : Bytes → Expr
  slice : Expr → Expr
  array : Expr → Expr → Expr
  other_expr : Expr

unfoldable pub expr_to_string : Expr → Bytes
expr_to_string (ident name) = name
expr_to_string (slice elt) = codes "[]" ++ expr_to_string elt
expr_to_string (array len elt) = []
expr_to_string other_expr = []

pub record Field : Type 0 where
  pub name : Bytes
  pub type_ : Bytes

pub record StructInfo : Type 0 where
  pub name : Bytes
  pub fields : List Field

-- `ast.Field` of a struct: several names may share a type, and an embedded field has no name.
pub record FieldDecl : Type 0 where
  pub names : List Bytes
  pub type_ : Expr

pub data Spec : Type 0 where
  struct_spec : Bytes → List FieldDecl → Spec
  type_spec : Bytes → Spec
  other_spec : Spec

pub data Decl : Type 0 where
  gen_decl : List Spec → Decl
  other_decl : Decl

-- `ast.File`: the name of the package and the declarations.
pub record AstFile : Type 0 where
  pub package_name : Bytes
  pub decls : List Decl

-- `strings.SplitSeq` by a comma; `part` is what stands before.
unfoldable pub split_from : Bytes → Bytes → List Bytes
split_from part [] = part ∷ []
split_from part (c ∷ cs) =
    let here = part ∷ split_from [] cs in
    let on = split_from (part ++ c ∷ []) cs in if c == b',' then here else on

-- The parts of the flag `-types`, without the space around them, and without the empty ones.
unfoldable pub nonempty : List Bytes → List Bytes
unfolding trim_space
nonempty [] = []
nonempty (t ∷ ts) =
    let ty = trim_space t in let rest = nonempty ts in if ltb 0 (length ty) then ty ∷ rest else rest

unfoldable pub parse_types : Bytes → List Bytes
unfolding split_from nonempty
parse_types types_flag = nonempty (split_from [] types_flag)

abbrev pub is_below : Bytes → Option Bytes → Bool
is_below target none = false
is_below target (some x) = less x target

abbrev pub is_at : Bytes → Option Bytes → Bool
is_at target none = false
is_at target (some x) = x == target

-- The loop of `slices.BinarySearch` between `i` and `j`, with a round for each halving.
unfoldable pub search_from : ℕ → List Bytes → Bytes → ℕ → ℕ → ℕ
unfolding less
search_from zero xs target i j = i
search_from (suc n) xs target i j =
    let h = (i + j) / 2 in
    let right = search_from n xs target (h + 1) j in
    let left = search_from n xs target i h in
    if ltb i j then (if is_below target (get_elem? xs h) then right else left) else i

-- `slices.BinarySearch`, of which the program uses only whether the name was found.
unfoldable pub binary_search : List Bytes → Bytes → Bool
unfolding search_from
binary_search xs target =
    is_at target (get_elem? xs (search_from (length xs) xs target 0 (length xs)))

-- Without the flag every struct is taken.
unfoldable pub is_selected : List Bytes → Bytes → Bool
unfolding binary_search
is_selected [] name = true
is_selected (t ∷ ts) name = binary_search (t ∷ ts) name

unfoldable pub fields_of : List FieldDecl → List Field
unfolding expr_to_string
fields_of [] = []
fields_of (d ∷ ds) =
    map (λ name. record { name = name; type_ = expr_to_string d.type_ }) d.names ++ fields_of ds

unfoldable pub structs_of_specs : List Bytes → List Spec → List StructInfo
unfolding is_selected fields_of
structs_of_specs types [] = []
structs_of_specs types (struct_spec name fields ∷ specs) =
    let rest = structs_of_specs types specs in
    if is_selected types name
    then (record { name = name; fields = fields_of fields }) ∷ rest
    else rest
structs_of_specs types (type_spec name ∷ specs) = structs_of_specs types specs
structs_of_specs types (other_spec ∷ specs) = structs_of_specs types specs

unfoldable pub structs_of : List Bytes → List Decl → List StructInfo
unfolding structs_of_specs
structs_of types [] = []
structs_of types (gen_decl specs ∷ decls) = structs_of_specs types specs ++ structs_of types decls
structs_of types (other_decl ∷ decls) = structs_of types decls
