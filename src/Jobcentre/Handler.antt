-- ===== src/Jobcentre/Handler.antt =====
-- The function `handler` of jobcentre/jobcentre.go: the lines of a client, and the messages to
-- `internal`.
use protohackers_go.Prelude.{
  ℕ, suc, ◌≡◌, refl, Bool, true, false, Option, none, some, List, [], ◌∷◌, ◌++◌, if◌then◌else◌,
  ◌==◌, nat_eq, bytes_eq, Bytes, bytes_beq, codes, read_lines,
}
use protohackers_go.Prelude.Int.{ℤ}
use protohackers_go.Jobcentre.Types.{
  status_error, Response, status, Request, connected, disconnected, put, get, abort, delete,
}

-- `json.Unmarshal` into each of the types: whether it returns no error, and what it leaves. Into the
-- `Request` it writes over the name that was there before.
pub record Decoders (D : Type 0) : Type 0 where
  pub decode_request : Bytes → Bytes → Bool × Bytes
  pub decode_put : Bytes → Bool × (Bytes × D × ℕ)
  pub decode_get : Bytes → Bool × (List Bytes × Option Bool)
  pub decode_abort : Bytes → Bool × ℤ
  pub decode_delete : Bytes → Bool × ℤ

-- A message on the channel of `internal`, or an answer written by the handler itself.
pub data Event (D : Type 0) : Type 0 where
  to_internal : Request D → Event D
  to_client : Response D → Event D

-- A step of the handler, from the number of writes that were tried before it: what it puts out, the
-- number after it, and what it results in, or nothing where it returns at the error of a write.
abbrev pub W : Type 0 → Type 0 → Type 0
W D A = ℕ → List (Event D) × (ℕ × Option A)

abbrev pub return : {D A : Type 0} → A → W D A
return a n = ([], (n, some a))

abbrev pub next :
    {D A B : Type 0}
    → List (Event D) × (ℕ × Option A)
    → (A → W D B)
    → List (Event D) × (ℕ × Option B)
next (es, (n, none)) f = (es, (n, none))
next (es, (n, some a)) f = let (fs, r) = f a n in (es ++ fs, r)

infixl 5 ◌>>=◌
abbrev pub ◌>>=◌ : {D A B : Type 0} → W D A → (A → W D B) → W D B
◌>>=◌ m f n = next (m n) f

infixl 5 ◌>>◌
abbrev pub ◌>>◌ : {D A B : Type 0} → W D A → W D B → W D B
◌>>◌ m k = m >>= (λ a. k)

module _ {D : Type 0} where
  abbrev pub unknown_request : Event D
  unknown_request = to_client (status status_error (codes "unrecognized request type."))

  abbrev pub invalid_request : Event D
  invalid_request = to_client (status status_error (codes "invalid put request"))

  -- A message on the channel.
  abbrev pub send_message : Request D → W D Unit
  send_message r n = (to_internal r ∷ [], (n, some tt))

  -- `WriteStatus`; `writes` says of each write of the connection whether it succeeds.
  abbrev pub write_status : (ℕ → Bool) → Event D → W D Unit
  write_status writes e n = if writes n then (e ∷ [], (suc n, some tt)) else ([], (suc n, none))

  -- What was not decoded is answered with an error.
  abbrev pub complain : (ℕ → Bool) → Bool → Event D → W D Unit
  complain writes ok e = if ok then return tt else write_status writes e

  -- What is sent goes out whether it was decoded or not.
  abbrev pub forward : (ℕ → Bool) → Bool → Request D → W D Unit
  forward writes ok r = do complain writes ok invalid_request; send_message r

  abbrev pub put_of : Bytes × D × ℕ → Request D
  put_of (q, payload, pri) = put q payload pri

  abbrev pub get_of : List Bytes × Option Bool → Request D
  get_of (qs, wait) = get qs wait

  -- The `switch` over the name of the request.
  unfoldable pub dispatch : Decoders D → (ℕ → Bool) → Bytes → Bytes → W D Unit
  dispatch d writes name data_in =
      if name == codes "put"
      then forward writes (d.decode_put data_in).0 (put_of (d.decode_put data_in).1)
      else if name == codes "get"
      then forward writes (d.decode_get data_in).0 (get_of (d.decode_get data_in).1)
      else if name == codes "abort"
      then forward writes (d.decode_abort data_in).0 (abort (d.decode_abort data_in).1)
      else if name == codes "delete"
      then forward writes (d.decode_delete data_in).0 (delete (d.decode_delete data_in).1)
      else write_status writes unknown_request

  -- A round of the loop, with the name that the variable `request` has before it and after it.
  unfoldable pub round : Decoders D → (ℕ → Bool) → Bytes → Bytes → W D Bytes
  unfolding dispatch
  round d writes name data_in =
      let (ok, new_name) = d.decode_request data_in name in
      do complain writes ok unknown_request; dispatch d writes new_name data_in; return new_name

  unfoldable pub rounds : Decoders D → (ℕ → Bool) → Bytes → List Bytes → W D Unit
  unfolding round
  rounds d writes name [] = return tt
  rounds d writes name (l ∷ ls) = do new_name ← round d writes name l; rounds d writes new_name ls

  -- All of it, with the messages that come before the loop and, by the `defer`, after it.
  unfoldable pub handler : Decoders D → (ℕ → Bool) → Bytes → List (Event D)
  unfolding rounds read_lines
  handler d writes bytes =
      to_internal connected ∷ (rounds d writes [] (read_lines bytes) 0).0
      ++ to_internal disconnected ∷ []

  -- A line that is no JSON, after one that was a request to delete a job, is answered with two
  -- errors and is handed on as a request to delete a job all the same, since the name of the
  -- request before is still there; a decoder that meets no JSON leaves its variable as it is. Both
  -- writes succeed.
  pub stale_request :
      (d : Decoders D) (writes : ℕ → Bool) (n : ℕ) (first second : Bytes) (i : ℤ) (name : Bytes)
      → d.decode_request first name ≡ (true, codes "delete")
      → d.decode_delete first ≡ (true, i)
      → d.decode_request second (codes "delete") ≡ (false, codes "delete")
      → (d.decode_delete second).0 ≡ false
      → writes n ≡ true
      → writes (suc n) ≡ true
      → (rounds d writes name (first ∷ second ∷ []) n).0
        ≡ to_internal (delete i)
          ∷ unknown_request
          ∷ invalid_request
          ∷ to_internal (delete (d.decode_delete second).1)
          ∷ []
  unfolding rounds round dispatch bytes_beq
  stale_request d writes n first second i name e f g h v w = rw (e, f, g, h, v, w) refl
