-- ===== src/Auth/Ceremony.antt =====
-- auth.rs, `insert_capped`: a map of pending ceremonies that evicts the soonest to expire.
pub mod Bounds
pub mod Ends
use vm_vitals.Base.{
  ℕ, zero, suc, ◌≡◌, Bool, List, [], ◌∷◌, Option, none, some, ltb, leb, if◌then◌else◌, Text, Map,
  get, insert, remove, retain, length,
}
use vm_vitals.Auth.State.{max_ceremonies}

module _ {V : Type 0} (exp_of : V → ℕ) where
  -- `m.iter().min_by_key(…)`: of entries with the least time, the first in the map's order.
  unfoldable pub min_by_key : Map V → Option (Text × V)
  min_by_key [] = none
  min_by_key ((k, v) ∷ m) = elim (min_by_key m) [
    | none ↦ some (k, v)
    | some (j, u) ↦ if leb (exp_of v) (exp_of u) then some (k, v) else some (j, u)
  ]

  -- The `while` loop of `insert_capped`. Each round removes an entry, so the length of the map is
  -- fuel enough.
  unfoldable pub evict : ℕ → ℕ → Map V → Map V
  unfolding min_by_key
  evict most zero m = m
  evict most (suc fuel) m =
      let rest : Map V = elim (min_by_key m) [
        | none ↦ m
        | some (k, v) ↦ evict most fuel (remove k m)
      ] in
      if ltb (length m) most then m else rest

  -- `now` is read once, before the expired entries go.
  unfoldable pub insert_capped : ℕ → Text → V → Map V → Map V
  unfolding evict
  insert_capped now key val m =
      let live = retain (λ v. ltb now (exp_of v)) m in
      insert key val (evict max_ceremonies (length live) live)
