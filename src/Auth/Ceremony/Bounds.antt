-- ===== src/Auth/Ceremony/Bounds.antt =====
-- auth.rs, `insert_capped`: the size of the map after it, and which entries are in it.
use vm_vitals.Base.{
  ℕ, zero, suc, ◌≤◌, ◌<◌, ◌≡◌, refl, ap, inl, inr, Bool, ◌≢◌, [], ◌∷◌, none, some, arith, ltb,
  lt→ltb, Option-cases, Text, text_eq_iff, text_eq_refl, Map, get, insert, remove, retain, length,
  Distinct, length-remove-le, length-retain-le, get-remove, get-insert_self, get-insert, get-retain,
  retain-Distinct, remove-Distinct, insert-Distinct,
}
use vm_vitals.Auth.State.{max_ceremonies}
use vm_vitals.Auth.Ceremony.{min_by_key, evict, insert_capped}

module _ {V : Type 0} (exp_of : V → ℕ) where
  pub min_by_key-none : (m : Map V) → min_by_key exp_of m ≡ none → m ≡ []
  unfolding min_by_key
  min_by_key-none [] h = refl
  min_by_key-none ((k, v) ∷ m) h = ground arith

  -- No entry expires before the one that `min_by_key` finds.
  pub min_by_key-le :
      (m : Map V) (k : Text) (v : V)
      → min_by_key exp_of m ≡ some (k, v)
      → (j : Text) (u : V) → get j m ≡ some u
      → exp_of v ≤ exp_of u
  unfolding min_by_key get
  min_by_key-le [] k v h j u e = cc
  min_by_key-le ((i, w) ∷ m) k v h j u e = elim (Option-cases (min_by_key exp_of m)) [
    | inl q ↦ let none_left : get j m ≡ none = rw (min_by_key-none m q) in ground arith
    | inr ((xk, xv), q) ↦ ground (arith, min_by_key-le m xk xv q j u)
  ]

  -- It is an entry of the map.
  pub min_by_key-length-remove :
      (m : Map V) (k : Text) (v : V)
      → min_by_key exp_of m ≡ some (k, v)
      → length (remove k m) < length m
  unfolding min_by_key remove
  min_by_key-length-remove [] k v h = cc
  min_by_key-length-remove ((i, w) ∷ m) k v h = elim (Option-cases (min_by_key exp_of m)) [
    | inl q ↦ ground (arith, text_eq_refl i, length-remove-le i m)
    | inr ((xk, xv), q) ↦ ground (
      arith,
      text_eq_refl i,
      length-remove-le i m,
      length-remove-le k m,
      min_by_key-length-remove m xk xv q,
    )
  ]

  -- With fuel for every entry the loop ends by its test.
  pub length-evict-lt :
      (most fuel : ℕ) (m : Map V)
      → 0 < most
      → length m ≤ fuel
      → length (evict exp_of most fuel m) < most
  unfolding evict
  length-evict-lt most zero m p h = omega arith
  length-evict-lt most (suc fuel) m p h = elim (Option-cases (min_by_key exp_of m)) [
    | inl q ↦ let e = ap length (min_by_key-none m q) in rw (q, evict) (ground arith)
    | inr ((k, v), q) ↦
        rw (q, evict)
          (ground
            (arith, min_by_key-length-remove m k v q, length-evict-lt most fuel (remove k m) p))
  ]

  -- Nothing is evicted from a map under the cap.
  pub evict-under : (most fuel : ℕ) (m : Map V) → length m < most → evict exp_of most fuel m ≡ m
  unfolding evict
  evict-under most zero m h = refl
  evict-under most (suc fuel) m h = rw (lt→ltb _ _ h)

  -- What is left was there.
  pub get-evict :
      (most fuel : ℕ) (m : Map V) (k : Text) (v : V)
      → get k (evict exp_of most fuel m) ≡ some v
      → get k m ≡ some v
  unfolding evict
  get-evict most zero m k v h = h
  get-evict most (suc fuel) m k v h = elim (Option-cases (min_by_key exp_of m)) [
    | inl q ↦ let h' = rw (q, evict) at h in ground arith
    | inr ((x, w), q) ↦
        let h' = rw (q, evict) at h in
        ground (arith, get-evict most fuel (remove x m) k v, get-remove x k m)
  ]

  -- The entry that `min_by_key` finds, read back by its key.
  get-min_by_key :
      (m : Map V) (k : Text) (v : V)
      → Distinct m
      → min_by_key exp_of m ≡ some (k, v)
      → get k m ≡ some v
  unfolding min_by_key get
  get-min_by_key [] k v d h = cc
  get-min_by_key ((i, w) ∷ m) k v d h = elim (Option-cases (min_by_key exp_of m)) [
    | inl q ↦ ground (arith, text_eq_refl i)
    | inr ((xk, xv), q) ↦
        ground (arith, text_eq_refl i, text_eq_iff i xk, get-min_by_key m xk xv d.1 q)
  ]

  -- The loop evicts the soonest to expire: an entry that it removed expires no later than any that it
  -- left.
  pub evict-oldest :
      (most fuel : ℕ) (m : Map V) (k j : Text) (v u : V)
      → Distinct m
      → get k m ≡ some v
      → get k (evict exp_of most fuel m) ≡ none
      → get j (evict exp_of most fuel m) ≡ some u
      → exp_of v ≤ exp_of u
  unfolding evict
  evict-oldest most zero m k j v u d p h e = cc
  evict-oldest most (suc fuel) m k j v u d p h e = elim (Option-cases (min_by_key exp_of m)) [
    | inl q ↦ let h' = rw (q, evict) at h in ground arith
    | inr ((x, w), q) ↦
        let h' = rw (q, evict) at h in
        let e' = rw (q, evict) at e in
        ground (
          arith,
          text_eq_iff x k,
          get-min_by_key m x w d q,
          min_by_key-le m x w q j u (get-evict most (suc fuel) m j u e),
          get-remove x k m,
          evict-oldest most fuel (remove x m) k j v u (remove-Distinct x m d),
        )
  ]

  pub evict-Distinct :
      (most fuel : ℕ) (m : Map V) → Distinct m → Distinct (evict exp_of most fuel m)
  unfolding evict
  evict-Distinct most zero m d = d
  evict-Distinct most (suc fuel) m d = elim (Option-cases (min_by_key exp_of m)) [
    | inl q ↦ rw (q, evict) (ground arith)
    | inr ((k, v), q) ↦
        rw (q, evict)
          (ground (arith, evict-Distinct most fuel (remove k m) (remove-Distinct k m d)))
  ]

  -- After `insert_capped` the map holds the new entry under its key and no more than
  -- `MAX_CEREMONIES` entries, whatever it held before.
  pub insert_capped_bounds :
      (now : ℕ) (key : Text) (val : V) (m : Map V)
      → (length (insert_capped exp_of now key val m) ≤ max_ceremonies)
        × (get key (insert_capped exp_of now key val m) ≡ some val)
  unfolding insert_capped insert
  insert_capped_bounds now key val m =
      let live = retain (λ v. ltb now (exp_of v)) m in
      let left = evict exp_of max_ceremonies (length live) live in
      (
        omega (
          arith,
          length-remove-le key left,
          length-evict-lt max_ceremonies (length live) live (omega arith) (omega arith),
        ),
        get-insert_self key val left,
      )

  -- Another entry of the new map was in the old one and has not expired.
  pub insert_capped-from :
      (now : ℕ) (key j : Text) (val u : V) (m : Map V)
      → Distinct m
      → key ≢ j
      → get j (insert_capped exp_of now key val m) ≡ some u
      → (get j m ≡ some u) × (now < exp_of u)
  unfolding insert_capped
  insert_capped-from now key j val u m d ne e =
      let p : V → Bool = λ v. ltb now (exp_of v) in
      let live = retain p m in
      let left = evict exp_of max_ceremonies (length live) live in
      ground (
        arith,
        text_eq_iff key j,
        get-insert key j val left,
        get-evict max_ceremonies (length live) live j u,
        get-retain p j m d,
      )

  -- Below the cap nothing but expired entries goes: a pending ceremony that has not expired stays.
  pub insert_capped_keeps :
      (now : ℕ) (key j : Text) (val u : V) (m : Map V)
      → Distinct m
      → length m < max_ceremonies
      → key ≢ j
      → get j m ≡ some u
      → now < exp_of u
      → get j (insert_capped exp_of now key val m) ≡ some u
  unfolding insert_capped
  insert_capped_keeps now key j val u m d small ne e fresh =
      let p : V → Bool = λ v. ltb now (exp_of v) in
      let live = retain p m in
      rw (evict-under max_ceremonies (length live) live (omega (arith, length-retain-le p m)))
        (ground (arith, text_eq_iff key j, get-insert key j val live, get-retain p j m d))

  -- An entry that had not expired and is gone expires no later than any old entry that stayed.
  pub insert_capped_evicts :
      (now : ℕ) (key k j : Text) (val v u : V) (m : Map V)
      → Distinct m
      → key ≢ k
      → key ≢ j
      → get k m ≡ some v
      → now < exp_of v
      → get k (insert_capped exp_of now key val m) ≡ none
      → get j (insert_capped exp_of now key val m) ≡ some u
      → exp_of v ≤ exp_of u
  unfolding insert_capped
  insert_capped_evicts now key k j val v u m d nk nj e fresh gone kept =
      let p : V → Bool = λ v. ltb now (exp_of v) in
      let live = retain p m in
      let left = evict exp_of max_ceremonies (length live) live in
      ground (
        arith,
        text_eq_iff key k,
        text_eq_iff key j,
        get-insert key k val left,
        get-insert key j val left,
        get-retain p k m d,
        evict-oldest max_ceremonies (length live) live k j v u (retain-Distinct p m d),
      )

  pub insert_capped-Distinct :
      (now : ℕ) (key : Text) (val : V) (m : Map V)
      → Distinct m
      → Distinct (insert_capped exp_of now key val m)
  unfolding insert_capped
  insert_capped-Distinct now key val m d =
      let live = retain (λ v. ltb now (exp_of v)) m in
      insert-Distinct key val _ (
        evict-Distinct max_ceremonies (length live) live
          (retain-Distinct (λ v. ltb now (exp_of v)) m d))
