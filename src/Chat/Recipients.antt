-- ===== src/Chat/Recipients.antt =====
-- What each client of chat/chat.go is written by the loops over the sessions.
use protohackers_go.Prelude.{
  ℕ, ◌≡◌, refl, sym, ap, ◌∙◌, inl, inr, Bool, true, false, not, ◌&&◌, ◌||◌, Option, none, some,
  List, [], ◌∷◌, ◌++◌, arith, if◌then◌else◌, Bool-cases, ◌==◌, nat_eq, bytes_eq, Bytes, ==→eq,
  delete_func,
}
use protohackers_go.Chat.{
  ChatSession, Event, wrote, closed, Order, is_connected, terminated, write_line, session_of,
  others,
}
use mathlib.Core.List.{map, append_assoc}
use mathlib.Core.Path.{subst}
use protohackers_go.Chat.Sessions.{
  DistinctClients, IsRange, session_of-client, unless, session_of-delete_func,
  delete_func-DistinctClients,
}

-- The lines that a client is written, in their order.
unfoldable pub lines_to : ℕ → List Event → List Bytes
lines_to d [] = []
lines_to d (wrote c line ∷ out) = (if c == d then line ∷ [] else []) ++ lines_to d out
lines_to d (closed c ∷ out) = lines_to d out

pub lines_to-append :
    (d : ℕ) (xs ys : List Event) → lines_to d (xs ++ ys) ≡ lines_to d xs ++ lines_to d ys
unfolding lines_to
lines_to-append d [] ys = refl
lines_to-append d (wrote c line ∷ out) ys =
    rw (lines_to-append d out ys) (sym (append_assoc (if c == d then line ∷ [] else []) _ _))
lines_to-append d (closed c ∷ out) ys = lines_to-append d out ys

-- The line, if there is a session to write it to.
abbrev pub once_to : Bytes → Option ChatSession → List Bytes
once_to line none = []
once_to line (some s) = terminated line ∷ []

pub lines_to-map :
    (d : ℕ) (line : Bytes) (ss : List ChatSession)
    → DistinctClients ss
    → lines_to d (map (write_line line) ss) ≡ once_to line (session_of d ss)
unfolding lines_to session_of
lines_to-map d line [] h = refl
lines_to-map d line (s ∷ ss) h = elim (Bool-cases (s.client == d)) [
  | inl x ↦
      let none_left : session_of d ss ≡ none =
        subst (λ c. session_of c ss ≡ none) (==→eq s.client d x) h.0 in
      rw x (
        ap (λ rest. terminated line ∷ rest)
          (lines_to-map d line ss h.1 ∙ ap (once_to line) none_left))
  | inr x ↦ rw x (lines_to-map d line ss h.1)
]

-- `d` has a session with a name.
abbrev pub has_joined : Option ChatSession → Bool
has_joined none = false
has_joined (some s) = is_connected s

abbrev pub line_if : Bool → Bytes → List Bytes
line_if true line = terminated line ∷ []
line_if false line = []

-- A loop over the sessions writes its line once to each other client that has joined, and nothing to
-- any other one.
pub lines_to-others :
    (order : Order) (c d : ℕ) (line : Bytes) (ss : List ChatSession)
    → IsRange order
    → DistinctClients ss
    → lines_to d (map (write_line line) (others c (order ss)))
      ≡ line_if (not (c == d) && has_joined (session_of d ss)) line
unfolding others
lines_to-others order c d line ss r h =
    let p : ChatSession → Bool = λ s. s.client == c || not (is_connected s) in
    lines_to-map d line (delete_func p (order ss))
      (delete_func-DistinctClients p (order ss) (r.once ss h))
    ∙ (ap (once_to line)
          (session_of-delete_func p d (order ss) (r.once ss h) ∙ ap (unless p) (r.same ss d h))
        ∙ heard (session_of d ss) refl)
  where
    heard :
        (o : Option ChatSession)
        → session_of d ss ≡ o
        → once_to line (unless (λ s. s.client == c || not (is_connected s)) o)
          ≡ line_if (not (c == d) && has_joined o) line
    heard none e = ground arith
    heard (some s) e = ground (arith, session_of-client d ss s e)
