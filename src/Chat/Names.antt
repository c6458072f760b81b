-- ===== src/Chat/Names.antt =====
-- The usernames that chat/chat.go hands out.
use protohackers_go.Prelude.{
  ℕ, ◌+◌, ◌≡◌, refl, ap, ◌∙◌, inl, inr, true, false, Option, none, some, List, [], ◌∷◌, ◌++◌,
  Bool-cases, ◌==◌, nat_eq, bytes_eq, Bytes, bytes_beq, ==_refl, ==→eq, ==_sym_false, decimal,
  update, done,
}
use protohackers_go.Chat.{
  ChatSession, State, said, Event, Order, session_of, rename, new_name, is_name, set_name, answer,
  handle_said, handle, run,
}
use protohackers_go.Chat.Sessions.{renamed, session_of-rename}

-- A client without a name gets the one that the counters say.
named :
    (order : Order) (st : State) (c : ℕ) (value name : Bytes) (counters : Bytes → Option ℕ)
    → session_of c st.sessions ≡ some (record { client = c; username = [] })
    → is_name value ≡ true
    → new_name st.counters value ≡ (name, counters)
    → (out : List Event) × (handle order st (said c value)
        ≡ done (record { sessions = rename c name st.sessions; counters = counters }, out))
unfolding handle handle_said answer set_name bytes_beq
named order st c value name counters e h q =
    ((set_name order st c value).1, rw e (rw h (rw q refl)))

distinct_names :
    (counters : Bytes → Option ℕ) (u w : Bytes) (n : ℕ)
    → counters u ≡ some n
    → counters w ≡ none
    → (u == w) ≡ false
distinct_names counters u w n h k = elim (Bool-cases (u == w)) [
  | inl x ↦ let q : u ≡ w = ==→eq u w x in cc
  | inr x ↦ x
]

first_name :
    (counters : Bytes → Option ℕ) (u : Bytes) (n : ℕ)
    → counters u ≡ some n
    → new_name counters u ≡ (u ++ decimal n, update counters u (some (n + 1)))
unfolding new_name decimal bytes_beq
first_name counters u n e = rw (e, new_name) refl

second_name :
    (counters : Bytes → Option ℕ) (u : Bytes)
    → counters u ≡ none
    → new_name counters u ≡ (u, update counters u (some 1))
unfolding new_name bytes_beq
second_name counters u e = rw (e, new_name) refl

renamed_self :
    (c : ℕ) (name : Bytes) (ss : List ChatSession) (old : Bytes)
    → session_of c ss ≡ some (record { client = c; username = old })
    → session_of c (rename c name ss) ≡ some (record { client = c; username = name })
renamed_self c name ss old e =
    session_of-rename c c name ss ∙ (ap (renamed c name) e ∙ rw (==_refl c) refl)

renamed_other :
    (c d : ℕ) (name : Bytes) (ss : List ChatSession) (old : Bytes)
    → session_of d ss ≡ some (record { client = d; username = old })
    → (c == d) ≡ false
    → session_of d (rename c name ss) ≡ some (record { client = d; username = old })
renamed_other c d name ss old e ne =
    session_of-rename c d name ss ∙ (ap (renamed c name) e ∙ rw (==_sym_false c d ne) refl)

-- Two clients may get the same username: the first of them asks for a name `u` that is taken, and gets
-- it with a number behind it; the second asks for just this name with the number, which nobody has
-- asked for, and gets it too.
pub same_username :
    (order order' : Order) (st : State) (c d n : ℕ) (u : Bytes)
    → session_of c st.sessions ≡ some (record { client = c; username = [] })
    → session_of d st.sessions ≡ some (record { client = d; username = [] })
    → (c == d) ≡ false
    → is_name u ≡ true
    → is_name (u ++ decimal n) ≡ true
    → st.counters u ≡ some n
    → st.counters (u ++ decimal n) ≡ none
    → (a : State × List Event) × (run st
          ((order, said c u) ∷ (order', said d (u ++ decimal n)) ∷ [])
        ≡ done a)
      × (session_of c a.0.sessions ≡ some (record { client = c; username = u ++ decimal n }))
      × (session_of d a.0.sessions ≡ some (record { client = d; username = u ++ decimal n }))
unfolding run
same_username order order' st c d n u ec ed ne hu hw taken free =
    let w = u ++ decimal n in
    let counters : Bytes → Option ℕ = update st.counters u (some (n + 1)) in
    let st' : State = record { sessions = rename c w st.sessions; counters = counters } in
    let differ : (u == w) ≡ false = distinct_names st.counters u w n taken free in
    let differ' : counters w ≡ st.counters w = rw differ refl in
    let unnamed : session_of d st'.sessions ≡ some (record { client = d; username = [] }) =
      renamed_other c d w st.sessions [] ed ne in
    let (out, e) = named order st c u w counters ec hu (first_name st.counters u n taken) in
    let (out', e') =
      named order' st' d w w (update counters w (some 1)) unnamed hw
        (second_name counters w (differ' ∙ free)) in
    (
      (
        record {
          sessions = rename d w (rename c w st.sessions);
          counters = update counters w (some 1);
        },
        out ++ (out' ++ []),
      ),
      rw (e, e') refl,
      renamed_other d c w (rename c w st.sessions) w (renamed_self c w st.sessions [] ec)
          (==_sym_false c d ne),
      renamed_self d w (rename c w st.sessions) [] unnamed,
    )
