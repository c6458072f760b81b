-- ===== src/Db/Laws.antt =====
-- What db/db.go promises of its keys.
use protohackers_go.Prelude.{
  ℕ, suc, ◌+◌, ◌≡◌, refl, ap, ◌∙◌, inl, inr, false, Option, none, some, List, [], ◌∷◌, ◌++◌, arith,
  Bool-cases, Option-cases, ◌==◌, nat_eq, bytes_eq, Bytes, ==_refl, length, take, drop, All,
  take-append, index_of-some, contains, index_of,
}
use protohackers_go.Db.{
  version_key, delete_key, Store, serve, payload, read, insert, insert_or_read, handle, run,
}
use native.Mathlib.Numerals.{add-one}

index_of-first : (k v : Bytes) → contains k 61 ≡ false → index_of (k ++ 61 ∷ v) 61 ≡ some (length k)
unfolding contains index_of
index_of-first [] v h = refl
index_of-first (x ∷ xs) v h = ground (arith, index_of-first xs v)

index_of-missing : (k : Bytes) → contains k 61 ≡ false → index_of k 61 ≡ none
index_of-missing k h = elim (Option-cases (index_of k 61)) [
  | inl e ↦ e
  | inr (i, e) ↦ cc (index_of-some k 61 i e)
]

drop_past : (k v : Bytes) → drop (length k + 1) (k ++ 61 ∷ v) ≡ v
drop_past k v = rw (add-one (length k)) (drop_suc k)
  where
    drop_suc : (k : Bytes) → drop (suc (length k)) (k ++ 61 ∷ v) ≡ v
    drop_suc [] = refl
    drop_suc (x ∷ xs) = drop_suc xs

-- The datagram leaves the key alone: it is no insertion for it, and not the one that deletes.
abbrev pub SparesKey : Bytes → Bytes → Option ℕ → Type 0
SparesKey k m (some i) = (take i m == k) ≡ false
SparesKey k m none = (m == delete_key) ≡ false

abbrev pub Spares : Bytes → Bytes → Type 0
Spares k m = SparesKey k m (index_of m 61)

insert_or_read-Spares :
    (s : Store) (k m : Bytes) (o : Option ℕ) → SparesKey k m o → (insert_or_read s m o).0 k ≡ s k
unfolding insert read serve
insert_or_read-Spares s k m (some i) h = elim (Bool-cases (take i m == version_key)) [
  | inl x ↦ rw x refl
  | inr x ↦ rw x (rw h refl)
]
insert_or_read-Spares s k m none h = elim (Bool-cases (m == version_key)) [
  | inl x ↦ rw (h, x) refl
  | inr x ↦ rw (h, x) refl
]

run-Spares : (s : Store) (k : Bytes) (ms : List Bytes) → All (Spares k) ms → run s ms k ≡ s k
unfolding run handle
run-Spares s k [] h = refl
run-Spares s k (m ∷ ms) h =
    run-Spares (handle s m).0 k ms h.1 ∙ insert_or_read-Spares s k m (index_of m 61) h.0

handle-insert :
    (s : Store) (k v : Bytes)
    → contains k 61 ≡ false
    → (k == version_key) ≡ false
    → (handle s (k ++ 61 ∷ v)).0 k ≡ v
unfolding handle insert serve
handle-insert s k v h n =
    rw (index_of-first k v h, take-append k (61 ∷ v), drop_past k v, n) (rw (==_refl k) refl)

-- A value that was inserted for a key is what a later read of the key answers, whatever datagrams
-- come in between, if none of them inserts for this key or deletes. The key has no `=`, and is
-- neither `version` nor `delete`; the value is any bytes, `=` included.
pub handle-read :
    (s : Store) (k v : Bytes) (ms : List Bytes)
    → contains k 61 ≡ false
    → (k == version_key) ≡ false
    → (k == delete_key) ≡ false
    → All (Spares k) ms
    → (handle (run (handle s (k ++ 61 ∷ v)).0 ms) k).1 ≡ some (payload k v)
unfolding handle read serve
handle-read s k v ms h n d f =
    let stored = handle (s) (k ++ 61 ∷ v) in
    let kept : run stored.0 ms k ≡ v = run-Spares stored.0 k ms f ∙ handle-insert s k v h n in
    rw (index_of-missing k h, d, n) (ap (λ value. some (payload k value)) kept)
