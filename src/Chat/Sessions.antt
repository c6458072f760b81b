-- ===== src/Chat/Sessions.antt =====
-- The map of sessions in chat/chat.go: who is in it after each change.
use protohackers_go.Prelude.{
  ℕ, ◌≡◌, refl, ap, ◌∙◌, inl, inr, Bool, Option, none, some, List, [], ◌∷◌, ◌++◌, arith,
  if◌then◌else◌, Bool-cases, ◌==◌, nat_eq, bytes_eq, Bytes, ==→eq, delete_func,
}
use protohackers_go.Chat.{ChatSession, Order, session_of, rename}
use mathlib.Core.Path.{subst}

-- No client has two sessions.
abbrev pub DistinctClients : List ChatSession → Type 0
DistinctClients [] = Unit
DistinctClients (s ∷ ss) = (session_of s.client ss ≡ none) × DistinctClients ss

-- A `range` visits each session once.
pub record IsRange (order : Order) : Type 0 where
  pub same :
      (ss : List ChatSession) (d : ℕ)
      → DistinctClients ss
      → session_of d (order ss) ≡ session_of d ss
  pub once : (ss : List ChatSession) → DistinctClients ss → DistinctClients (order ss)

pub session_of-client :
    (c : ℕ) (ss : List ChatSession) (s : ChatSession) → session_of c ss ≡ some s → s.client ≡ c
unfolding session_of
session_of-client c [] s h = cc
session_of-client c (t ∷ ts) s h = ground (arith, session_of-client c ts s)

pub session_of-append :
    (d : ℕ) (ss : List ChatSession) (s : ChatSession)
    → session_of s.client ss ≡ none
    → session_of d (ss ++ s ∷ []) ≡ (if s.client == d then some s else session_of d ss)
unfolding session_of
session_of-append d [] s h = refl
session_of-append d (t ∷ ts) s h = ground (arith, session_of-append d ts s)

pub append-DistinctClients :
    (ss : List ChatSession) (s : ChatSession)
    → session_of s.client ss ≡ none
    → DistinctClients ss
    → DistinctClients (ss ++ s ∷ [])
unfolding session_of
append-DistinctClients [] s h d = (refl, tt)
append-DistinctClients (t ∷ ts) s h d = (
  ground (arith, session_of-append t.client ts s),
  append-DistinctClients ts s (ground arith) d.1,
)

-- The session, unless it is dropped.
abbrev pub unless : (ChatSession → Bool) → Option ChatSession → Option ChatSession
unless p none = none
unless p (some s) = if p s then none else some s

pub session_of-delete_func :
    (p : ChatSession → Bool) (d : ℕ) (ss : List ChatSession)
    → DistinctClients ss
    → session_of d (delete_func p ss) ≡ unless p (session_of d ss)
unfolding session_of delete_func
session_of-delete_func p d [] h = refl
session_of-delete_func p d (s ∷ ss) h = elim (Bool-cases (s.client == d)) [
  | inl x ↦
      let none_left : session_of d ss ≡ none =
        subst (λ c. session_of c ss ≡ none) (==→eq s.client d x) h.0 in
      elim (Bool-cases (p s)) [
        | inl y ↦ rw (x, y) (session_of-delete_func p d ss h.1 ∙ ap (unless p) none_left)
        | inr y ↦ rw (x, y) (rw x refl)
      ]
  | inr x ↦ elim (Bool-cases (p s)) [
    | inl y ↦ rw (x, y) (session_of-delete_func p d ss h.1)
    | inr y ↦ rw (x, y) (rw x (session_of-delete_func p d ss h.1))
  ]
]

pub delete_func-DistinctClients :
    (p : ChatSession → Bool) (ss : List ChatSession)
    → DistinctClients ss
    → DistinctClients (delete_func p ss)
unfolding delete_func
delete_func-DistinctClients p [] h = tt
delete_func-DistinctClients p (s ∷ ss) h = elim (Bool-cases (p s)) [
  | inl y ↦ rw y (delete_func-DistinctClients p ss h.1)
  | inr y ↦ rw y (
    session_of-delete_func p s.client ss h.1 ∙ ap (unless p) h.0,
    delete_func-DistinctClients p ss h.1,
  )
]

-- The session under its new name.
abbrev pub renamed : ℕ → Bytes → Option ChatSession → Option ChatSession
renamed c name none = none
renamed c name (some s) = some (if s.client == c then record s { username = name } else s)

pub session_of-rename :
    (c d : ℕ) (name : Bytes) (ss : List ChatSession)
    → session_of d (rename c name ss) ≡ renamed c name (session_of d ss)
unfolding session_of rename
session_of-rename c d name [] = refl
session_of-rename c d name (s ∷ ss) = ground (arith, session_of-rename c d name ss)

pub rename-DistinctClients :
    (c : ℕ) (name : Bytes) (ss : List ChatSession)
    → DistinctClients ss
    → DistinctClients (rename c name ss)
unfolding rename
rename-DistinctClients c name [] h = tt
rename-DistinctClients c name (s ∷ ss) h = (
  ground (arith, session_of-rename c s.client name ss, h.0),
  rename-DistinctClients c name ss h.1,
)
