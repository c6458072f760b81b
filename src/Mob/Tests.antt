-- ===== src/Mob/Tests.antt =====
-- The proxy of mob/mob.go on a few lines.
use protohackers_go.Prelude.{
  ◌≡◌, refl, true, not, ◌||◌, List, [], ◌∷◌, ◌++◌, ◌==◌, nat_eq, bytes_eq, codes, is_alphanumeric,
  take, All,
}
use protohackers_go.Mob.{
  Text, is_space, fields_from, fields, bogus, is_coin, replace_coin, rewrite_coins, Source,
  from_client, from_proxy, handle_client,
}
use mathlib.Core.List.{map}
use protohackers_go.Mob.Words.{fields-rewrite_coins, rewrite_coins-twice}
use protohackers_go.Mob.Relay.{sent, client_turns, proxy_turns, lines, handle_client_relays}

abbrev line : Text
line = codes "send  refunds to 7iKDZEwPZSqIvDnHvVN2r0hUWXD5rHX please "

rewritten : rewrite_coins line ≡ codes "send refunds to 7YWHMfk9JZe0LM0g1ZauHuiSxhI please"
unfolding rewrite_coins fields fields_from is_space replace_coin is_coin is_alphanumeric
rewritten = refl

fields-rewrite_coins_example : fields (rewrite_coins line) ≡ map replace_coin (fields line)
fields-rewrite_coins_example = fields-rewrite_coins line

no_coin_left :
    (rewrite_coins (rewrite_coins line) ≡ rewrite_coins line)
    × All (λ w. (not (is_coin w) || w == bogus) ≡ true) (fields (rewrite_coins line))
no_coin_left = rewrite_coins-twice line

abbrev turns : List Source
turns = from_proxy ∷ from_client ∷ from_client ∷ []

handle_client_relays_example :
    handle_client turns (codes "alice" ++ 10 ∷ line ++ 10 ∷ []) (codes "name?" ++ 10 ∷ [])
    ≡ record {
      upstream = sent (take (client_turns turns) (lines (codes "alice" ++ 10 ∷ line ++ 10 ∷ [])));
      client = sent (take (proxy_turns turns) (lines (codes "name?" ++ 10 ∷ [])));
    }
handle_client_relays_example =
    handle_client_relays turns (codes "alice" ++ 10 ∷ line ++ 10 ∷ []) (codes "name?" ++ 10 ∷ [])
