-- ===== src/Traffic/Balancer.antt =====
-- traffic/balancer.go: the round-robin set of the dispatchers of a road.
pub mod Laws
pub mod Changes
pub mod Members
mod Tests
use protohackers_go.Prelude.{
  ℕ, zero, suc, ◌+◌, ◌-◌, ◌*◌, ◌/◌, ◌%◌, ◌^◌, ◌≤◌, ◌<◌, ◌≡◌, refl, sym, ap, ◌∙◌, ◌≢◌, ◌↔◌, ◌⊎◌, inl,
  inr, Bool, true, false, not, ◌&&◌, ◌||◌, Option, none, some, List, [], ◌∷◌, ◌++◌, arith, ltb, leb,
  if◌then◌else◌, Bool-cases, Option-cases, Eq, ◌==◌, nat_eq, bytes_eq, Bytes, bytes_beq,
  bytes_beq_iff, ==_refl, ==→eq, ==_sym_false, length, get_elem?, take, drop, replicate, All,
  length-append, length-take, length-drop, length-replicate, take-append, drop-append, All-append,
  All-mono, erase_idx, erase_idx-All, length-erase_idx, delete_func, delete_func-All, contains,
  index_of, contains-append, index_of-none, index_of-lt, Distinct, Distinct-append,
  contains-erase_idx_ne, contains-erase_idx_le, erase_idx-Distinct, contains-erase_idx_self, update,
  Outcome, done, panic, ◌>>=◌, Returns, >>=-Returns,
}

pub record Balancer {ℓ} (A : Type ℓ) : Type ℓ where
  pub set : List A
  pub index : ℕ

module _ {ℓ} {A : Type ℓ} where
  unfoldable pub new_balancer : Balancer A
  new_balancer = record { set = []; index = 0 }

  unfoldable pub len : Balancer A → ℕ
  len b = length b.set

  -- `item = self.set[self.index]`, which panics out of range, and the step of the index.
  get_at : Balancer A → Option A → Outcome (Option A × Balancer A)
  get_at b none = panic
  get_at b (some a) = done (some a, record b { index = (b.index + 1) % length b.set })

  -- An empty set gives the result `ok == false`, which is `none`.
  unfoldable pub get : Balancer A → Outcome (Option A × Balancer A)
  unfolding len get_at
  get b = if len b == 0 then done (none, b) else get_at b (get_elem? b.set b.index)

  unfoldable pub reset_index : Balancer A → Balancer A
  reset_index b = record b { index = 0 }

  unfoldable pub reset : Balancer A → Balancer A
  unfolding reset_index
  reset b = record (reset_index b) { set = [] }

module _ {ℓ} {A : Type ℓ} ⦃e : Eq A⦄ where
  unfoldable pub add : Balancer A → A → Balancer A
  add b a = elim (index_of b.set a) [ some pos ↦ b | none ↦ record b { set = b.set ++ a ∷ [] } ]

  -- The slice without the element, and then the test of the index against its new length.
  remove_at : Balancer A → ℕ → Balancer A
  remove_at b pos =
      let set = erase_idx b.set pos in
      record b { set = set; index = if leb b.index (length set) then 0 else b.index }

  unfoldable pub remove : Balancer A → A → Balancer A
  unfolding len remove_at
  remove b a =
      if len b == 0 then b else (elim (index_of b.set a) [ none ↦ b | some pos ↦ remove_at b pos ])
