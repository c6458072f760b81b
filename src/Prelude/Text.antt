-- ===== src/Prelude/Text.antt =====
-- Go strings as lists of bytes: literals, characters, and the functions of `strings`, `fmt` and
-- `bufio` that the servers call.
use Prim.Native.String.{String}
use Prim.Native.Char.{code}
use Prim.Native.Nat.{ℕ, zero, suc, ◌+◌, ◌/◌, ◌%◌}
use mathlib.Core.Bool.{Bool, true, ◌&&◌, ◌||◌}
use mathlib.Core.List.{List, [], ◌∷◌, ◌++◌, reverse}
use protohackers_go.Prelude.Tests.{ltb, leb, ◌==◌, nat_eq, if◌then◌else◌}

-- The bytes of an ASCII text.
abbrev pub codes : String → List ℕ
codes String.[] = []
codes (String.◌∷◌ c s) = code c ∷ codes s

-- The class `[a-zA-Z0-9]` of a regular expression.
unfoldable pub is_alphanumeric : ℕ → Bool
is_alphanumeric c =
    leb b'a' c && leb c b'z' || (leb b'A' c && leb c b'Z' || leb b'0' c && leb c b'9')

abbrev pub all_of : (ℕ → Bool) → List ℕ → Bool
all_of p [] = true
all_of p (c ∷ cs) = p c && all_of p cs

-- `%d` of a number that is not negative, with more rounds than it has digits.
unfoldable pub digits : ℕ → ℕ → List ℕ
digits zero n = []
digits (suc f) n =
    let front = digits f (n / 10) in
    if ltb n 10 then (b'0' + n) ∷ [] else front ++ (b'0' + n % 10) ∷ []

unfoldable pub decimal : ℕ → List ℕ
unfolding digits
decimal n = digits (suc n) n

-- `strings.Join`.
abbrev pub join : List (List ℕ) → List ℕ → List ℕ
join [] sep = []
join (s ∷ []) sep = s
join (s ∷ ss) sep = s ++ sep ++ join ss sep

-- `strings.TrimLeft` by a set of bytes, and `strings.TrimRight`.
unfoldable pub trim_left : (ℕ → Bool) → List ℕ → List ℕ
trim_left p [] = []
trim_left p (c ∷ cs) = let rest = trim_left p cs in if p c then rest else c ∷ cs

unfoldable pub trim_right : (ℕ → Bool) → List ℕ → List ℕ
unfolding trim_left
trim_right p s = reverse (trim_left p (reverse s))

-- The lines that `ReadString('\n')` and `ReadBytes('\n')` of a `bufio.Reader` return before the end of
-- the connection, each with its newline; `line` is what stands before. What follows the last newline
-- comes with the error that ends the loop.
unfoldable pub lines_from : List ℕ → List ℕ → List (List ℕ)
lines_from line [] = []
lines_from line (c ∷ cs) =
    let here = (line ++ c ∷ []) ∷ lines_from [] cs in
    let on = lines_from (line ++ c ∷ []) cs in if c == 10 then here else on

unfoldable pub read_lines : List ℕ → List (List ℕ)
unfolding lines_from
read_lines s = lines_from [] s
