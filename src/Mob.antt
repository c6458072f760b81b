-- ===== src/Mob.antt =====
-- mob/mob.go: the proxy that puts one address in the place of all coin addresses.
pub mod Words
pub mod Relay
mod Tests
use protohackers_go.Prelude.{
  ℕ, zero, suc, ◌+◌, ◌-◌, ◌*◌, ◌/◌, ◌%◌, ◌^◌, ◌≤◌, ◌<◌, ◌≡◌, refl, sym, ap, ◌∙◌, ◌≢◌, ◌↔◌, ◌⊎◌, inl,
  inr, Bool, true, false, not, ◌&&◌, ◌||◌, Option, none, some, List, [], ◌∷◌, ◌++◌, arith, ltb, leb,
  if◌then◌else◌, Bool-cases, Option-cases, Eq, ◌==◌, nat_eq, bytes_eq, Bytes, bytes_beq,
  bytes_beq_iff, ==_refl, ==→eq, ==_sym_false, codes, is_some, is_alphanumeric, all_of, digits,
  decimal, join, trim_left, trim_right, lines_from, read_lines, length, set, concat, get_elem?,
  take, drop, replicate, All, length-append, length-take, length-drop, length-replicate,
  take-append, drop-append, take-append-drop, take_all, drop_all, split_at, List-cases,
  index_of-some, length_pos, All-append, All-mono, All-zip, Any, erase_idx, erase_idx-All,
  length-erase_idx, delete_func, delete_func-All, contains, index_of, find_first, find_first-some,
  find_first-none, All-get_elem?, contains-append, index_of-none, index_of-lt, Distinct,
  Distinct-append, contains-erase_idx_ne, contains-erase_idx_le, erase_idx-Distinct,
  contains-erase_idx_self, update, Outcome, Outcome-cases, done, panic, ◌>>=◌, Returns, >>=-Returns,
}
use mathlib.Core.List.{map}

-- The characters of a text. A byte that belongs to no character stands as a number beyond all
-- characters, since `FieldsFunc` and `TrimSpace` keep it and no class has it.
abbrev pub Text : Type 0
Text = List ℕ

-- `unicode.IsSpace`.
unfoldable pub is_space : ℕ → Bool
is_space c =
    leb 9 c && leb c 13
    || c == 32
    || c == 133
    || c == 160
    || c == 5760
    || leb 8192 c && leb c 8202
    || c == 8232
    || c == 8233
    || c == 8239
    || c == 8287
    || c == 12288

-- `strings.TrimSpace`.
unfoldable pub trim_space : Text → Text
unfolding trim_left trim_right is_space
trim_space s = trim_right is_space (trim_left is_space s)

-- `strings.FieldsFunc`; `word` is the field that the scan is in.
abbrev pub end_field : Text → List Text → List Text
end_field [] rest = rest
end_field (c ∷ cs) rest = (c ∷ cs) ∷ rest

unfoldable pub fields_from : Text → Text → List Text
fields_from word [] = end_field word []
fields_from word (c ∷ cs) =
    let here = end_field word (fields_from [] cs) in
    let on = fields_from (word ++ c ∷ []) cs in if is_space c then here else on

unfoldable pub fields : Text → List Text
unfolding fields_from
fields s = fields_from [] s

abbrev pub bogus : Text
bogus = codes "7YWHMfk9JZe0LM0g1ZauHuiSxhI"

-- A match of `^7[a-zA-Z0-9]{25,34}$`.
unfoldable pub is_coin : Text → Bool
is_coin [] = false
is_coin (c ∷ cs) =
    c == b'7' && (leb 25 (length cs) && leb (length cs) 34 && all_of is_alphanumeric cs)

unfoldable pub replace_coin : Text → Text
unfolding is_coin
replace_coin word = if is_coin word then bogus else word

-- What becomes of `msg.value`.
unfoldable pub rewrite_coins : Text → Text
unfolding fields replace_coin
rewrite_coins value = join (map replace_coin (fields value)) (codes " ")

pub data Source : Type 0 where
  from_client from_proxy : Source

pub record Message : Type 0 where
  pub source : Source
  pub value : Text

-- What goes to the upstream server and what to the client.
pub record Written : Type 0 where
  pub upstream : Text
  pub client : Text

-- One round of the loop `loop`: the line and its newline, to the other side.
unfoldable pub relay : Message → Written → Written
unfolding rewrite_coins
relay m out = elim m.source [
  | from_client ↦ record out { upstream = out.upstream ++ rewrite_coins m.value ++ 10 ∷ [] }
  | from_proxy ↦ record out { client = out.client ++ rewrite_coins m.value ++ 10 ∷ [] }
]

-- The loop over the messages that come before the context is done.
unfoldable pub relay_all : List Message → Written → Written
unfolding relay
relay_all [] out = out
relay_all (m ∷ ms) out = relay_all ms (relay m out)

-- The goroutine that reads one side.
unfoldable pub messages : Source → Text → List Message
unfolding read_lines trim_space
messages source s = map (λ line. record { source = source; value = trim_space line }) (read_lines s)

-- The channel of the messages, with the choices of the scheduler: each says which side's next message
-- comes, and after the last one the context is done.
unfoldable pub channel : List Source → List Message → List Message → List Message
channel [] cs ps = []
channel (from_client ∷ ss) [] ps = channel ss [] ps
channel (from_client ∷ ss) (c ∷ cs) ps = c ∷ channel ss cs ps
channel (from_proxy ∷ ss) cs [] = channel ss cs []
channel (from_proxy ∷ ss) cs (p ∷ ps) = p ∷ channel ss cs ps

-- `HandleClient` between the client and the upstream server.
unfoldable pub handle_client : List Source → Text → Text → Written
unfolding channel messages relay_all
handle_client schedule client upstream =
    relay_all (channel schedule (messages from_client client) (messages from_proxy upstream))
      (record { upstream = []; client = [] })
