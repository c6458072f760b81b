-- ===== src/Mob/Relay.antt =====
-- What mob/mob.go writes to the two sides of a connection, however their lines are interleaved.
use protohackers_go.Prelude.{
  ℕ, zero, suc, ◌≡◌, refl, ap, ◌∙◌, List, [], ◌∷◌, ◌++◌, nat_eq, bytes_eq, read_lines, take,
  append_nil,
}
use protohackers_go.Mob.{
  Text, trim_space, rewrite_coins, Source, from_client, from_proxy, Message, Written, relay,
  relay_all, messages, channel, handle_client,
}
use mathlib.Core.List.{map, append_assoc}

-- The messages that one side's lines become.
abbrev by : Source → List Text → List Message
by source [] = []
by source (v ∷ vs) = record { source = source; value = v } ∷ by source vs

-- The lines that the other side gets for these.
abbrev pub sent : List Text → Text
sent [] = []
sent (v ∷ vs) = rewrite_coins v ++ 10 ∷ sent vs

-- How often the scheduler lets a client's message, or an upstream one, through.
abbrev pub client_turns : List Source → ℕ
client_turns [] = 0
client_turns (from_client ∷ ss) = suc (client_turns ss)
client_turns (from_proxy ∷ ss) = client_turns ss

abbrev pub proxy_turns : List Source → ℕ
proxy_turns [] = 0
proxy_turns (from_client ∷ ss) = proxy_turns ss
proxy_turns (from_proxy ∷ ss) = suc (proxy_turns ss)

abbrev pub lines : Text → List Text
lines s = map trim_space (read_lines s)

messages-by : (source : Source) (s : Text) → messages source s ≡ by source (lines s)
unfolding messages
messages-by source s = each (read_lines s)
  where
    each :
        (ls : List Text)
        → map (λ line. record { source = source; value = trim_space line }) ls
          ≡ by source (map trim_space ls)
    each [] = refl
    each (l ∷ ls) = ap (λ ms. record { source = source; value = trim_space l } ∷ ms) (each ls)

take_nil : (n : ℕ) → take {A = Text} n [] ≡ []
take_nil zero = refl
take_nil (suc n) = refl

sent-first :
    (s v : Text) (vs : List Text)
    → ((s ++ rewrite_coins v) ++ 10 ∷ []) ++ sent vs ≡ s ++ sent (v ∷ vs)
sent-first s v vs =
    append_assoc (s ++ rewrite_coins v) (10 ∷ []) (sent vs)
    ∙ append_assoc s (rewrite_coins v) (10 ∷ sent vs)

relay_all-channel :
    (ss : List Source) (cs ps : List Text) (out : Written)
    → relay_all (channel ss (by from_client cs) (by from_proxy ps)) out ≡ record {
      upstream = out.upstream ++ sent (take (client_turns ss) cs);
      client = out.client ++ sent (take (proxy_turns ss) ps);
    }
unfolding channel relay_all relay
relay_all-channel [] cs ps out = rw (append_nil out.upstream, append_nil out.client) refl
relay_all-channel (from_client ∷ ss) [] ps out =
    relay_all-channel ss [] ps out ∙ rw (take_nil (client_turns ss)) refl
relay_all-channel (from_client ∷ ss) (c ∷ cs) ps out =
    relay_all-channel ss cs ps _
    ∙ ap (λ t. record { upstream = t; client = out.client ++ sent (take (proxy_turns ss) ps) })
        (sent-first out.upstream c (take (client_turns ss) cs))
relay_all-channel (from_proxy ∷ ss) cs [] out =
    relay_all-channel ss cs [] out ∙ rw (take_nil (proxy_turns ss)) refl
relay_all-channel (from_proxy ∷ ss) cs (p ∷ ps) out =
    relay_all-channel ss cs ps _
    ∙ ap (λ t. record { upstream = out.upstream ++ sent (take (client_turns ss) cs); client = t })
        (sent-first out.client p (take (proxy_turns ss) ps))

-- Whatever the order in which the lines of the two sides come to the proxy, each side is written the
-- lines of the other, rewritten, in their order, none twice and none left out: as many of them as
-- the scheduler gave turns before the end.
pub handle_client_relays :
    (schedule : List Source) (client upstream : Text)
    → handle_client schedule client upstream ≡ record {
      upstream = sent (take (client_turns schedule) (lines client));
      client = sent (take (proxy_turns schedule) (lines upstream));
    }
unfolding handle_client
handle_client_relays schedule client upstream =
    rw (messages-by from_client client, messages-by from_proxy upstream)
      (relay_all-channel schedule (lines client) (lines upstream)
        (record { upstream = []; client = [] }))
