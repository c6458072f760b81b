-- ===== src/Mob/Words.antt =====
-- The words of a line of mob/mob.go before and after the coins are replaced.
use protohackers_go.Prelude.{
  ℕ, ◌≡◌, refl, sym, ap, ◌∙◌, ◌≢◌, inl, inr, Bool, true, not, ◌&&◌, ◌||◌, List, [], ◌∷◌, ◌++◌,
  arith, Bool-cases, ◌==◌, nat_eq, bytes_eq, bytes_beq, codes, is_alphanumeric, all_of, join, All,
  append_nil,
}
use protohackers_go.Mob.{
  Text, is_space, end_field, fields_from, fields, bogus, is_coin, replace_coin, rewrite_coins,
}
use mathlib.Core.List.{map, append_assoc}
use mathlib.Core.Path.{subst}

abbrev IsSpaceless : Text → Type 0
IsSpaceless w = all_of (λ c. not (is_space c)) w ≡ true

abbrev IsWord : Text → Type 0
IsWord w = (w ≢ []) × IsSpaceless w

all_of-append : (p : ℕ → Bool) (a b : Text) → all_of p (a ++ b) ≡ (all_of p a && all_of p b)
all_of-append p [] b = refl
all_of-append p (c ∷ a) b = ground (arith, all_of-append p a b)

-- A scan over characters that are no spaces only adds them to the word.
fields_from-spaceless :
    (u w rest : Text) → IsSpaceless u → fields_from w (u ++ rest) ≡ fields_from (w ++ u) rest
unfolding fields_from
fields_from-spaceless [] w rest h = rw (append_nil w) refl
fields_from-spaceless (c ∷ u) w rest h = elim (Bool-cases (is_space c)) [
  | inl x ↦ absurd (ground arith)
  | inr x ↦ rw x (
      fields_from-spaceless u (w ++ c ∷ []) rest (ground arith)
      ∙ rw (append_assoc w (c ∷ []) u) refl)
]

end_field-word : (w : Text) (rest : List Text) → w ≢ [] → end_field w rest ≡ w ∷ rest
end_field-word [] rest h = absurd (h refl)
end_field-word (c ∷ w) rest h = refl

fields-word : (w : Text) → IsWord w → fields w ≡ w ∷ []
unfolding fields fields_from
fields-word w (p, q) =
    ap (fields_from []) (sym (append_nil w))
    ∙ (fields_from-spaceless w [] [] q ∙ end_field-word w [] p)

pub fields-join : (ws : List Text) → All IsWord ws → fields (join ws (codes " ")) ≡ ws
unfolding fields fields_from is_space
fields-join [] h = refl
fields-join (w ∷ []) h = fields-word w h.0
fields-join (w ∷ v ∷ ws) h =
    let rest = join (v ∷ ws) (codes " ") in
    ap (fields_from []) (append_assoc w (codes " ") rest)
    ∙ (fields_from-spaceless w [] (codes " " ++ rest) h.0.1
        ∙ (end_field-word w _ h.0.0 ∙ ap (λ vs. w ∷ vs) (fields-join (v ∷ ws) h.1)))

end_field-IsWord :
    (w : Text) (rest : List Text) → IsSpaceless w → All IsWord rest → All IsWord (end_field w rest)
end_field-IsWord [] rest h k = k
end_field-IsWord (c ∷ w) rest h k = (((λ e. cc), h), k)

fields_from-IsWord : (w s : Text) → IsSpaceless w → All IsWord (fields_from w s)
unfolding fields_from
fields_from-IsWord w [] h = end_field-IsWord w [] h tt
fields_from-IsWord w (c ∷ s) h = elim (Bool-cases (is_space c)) [
  | inl x ↦ rw x (end_field-IsWord w _ h (fields_from-IsWord [] s refl))
  | inr x ↦ rw x (
      fields_from-IsWord (w ++ c ∷ []) s
        (all_of-append (λ c. not (is_space c)) w (c ∷ []) ∙ ground arith))
]

replace_coin-IsWord : (w : Text) → IsWord w → IsWord (replace_coin w)
unfolding replace_coin is_space
replace_coin-IsWord w h = elim (Bool-cases (is_coin w)) [
  | inl x ↦ rw x ((λ e. cc), refl)
  | inr x ↦ rw x h
]

All-map :
    (f : Text → Text) (ws : List Text)
    → ((w : Text) → IsWord w → IsWord (f w))
    → All IsWord ws
    → All IsWord (map f ws)
All-map f [] k h = tt
All-map f (w ∷ ws) k h = (k w h.0, All-map f ws k h.1)

-- The words of a line that the proxy passes on are the words of the line that it got, one for one and
-- in their order, each coin address replaced by the one address and every other word as it was.
pub fields-rewrite_coins :
    (value : Text) → fields (rewrite_coins value) ≡ map replace_coin (fields value)
unfolding rewrite_coins fields
fields-rewrite_coins value =
    fields-join (map replace_coin (fields value))
      (All-map replace_coin (fields value) replace_coin-IsWord (fields_from-IsWord [] value refl))

replace_coin-bogus : replace_coin bogus ≡ bogus
unfolding replace_coin is_coin is_alphanumeric
replace_coin-bogus = refl

replace_coin-twice : (w : Text) → replace_coin (replace_coin w) ≡ replace_coin w
replace_coin-twice w = elim (Bool-cases (is_coin w)) [
  | inl x ↦
      let e : replace_coin w ≡ bogus = unfold replace_coin in rw x refl in rw e replace_coin-bogus
  | inr x ↦ let e : replace_coin w ≡ w = unfold replace_coin in rw x refl in rw e e
]

-- A word is no coin, or it is the one that stands for all.
abbrev IsSafe : Text → Type 0
IsSafe w = (not (is_coin w) || w == bogus) ≡ true

replace_coin-IsSafe : (w : Text) → IsSafe (replace_coin w)
unfolding replace_coin bytes_beq is_coin is_alphanumeric
replace_coin-IsSafe w = elim (Bool-cases (is_coin w)) [
  | inl x ↦ rw x refl
  | inr x ↦ rw x (rw x refl)
]

map-IsSafe : (ws : List Text) → All IsSafe (map replace_coin ws)
map-IsSafe [] = tt
map-IsSafe (w ∷ ws) = (replace_coin-IsSafe w, map-IsSafe ws)

map-replace_coin-twice :
    (ws : List Text) → map replace_coin (map replace_coin ws) ≡ map replace_coin ws
map-replace_coin-twice [] = refl
map-replace_coin-twice (w ∷ ws) = rw (replace_coin-twice w, map-replace_coin-twice ws) refl

-- A line that went through the proxy once goes through a second one unchanged, and none of its words
-- is a coin address other than the one of the proxy.
pub rewrite_coins-twice :
    (value : Text)
    → (rewrite_coins (rewrite_coins value) ≡ rewrite_coins value)
      × All IsSafe (fields (rewrite_coins value))
unfolding rewrite_coins
rewrite_coins-twice value = (
  ap (λ ws. join ws (codes " "))
      (ap (map replace_coin) (fields-rewrite_coins value) ∙ map-replace_coin-twice (fields value)),
  subst (All IsSafe) (sym (fields-rewrite_coins value)) (map-IsSafe (fields value)),
)
