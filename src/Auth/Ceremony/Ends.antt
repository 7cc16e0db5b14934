-- ===== src/Auth/Ceremony/Ends.antt =====
-- auth.rs, the `while` loop of `insert_capped` as steps, and that it ends.
use vm_vitals.Base.{
  ℕ, zero, suc, ◌≤◌, ◌<◌, ◌≡◌, refl, sym, ◌∙◌, ap, inl, inr, [], ◌∷◌, Option, none, some, arith,
  ltb, Bool-cases, Option-cases, Text, Map, remove, length,
}
use vm_vitals.Auth.Ceremony.{min_by_key, evict}
use vm_vitals.Auth.Ceremony.Bounds.{min_by_key-length-remove}

module _ {V : Type 0} (exp_of : V → ℕ) where
  -- The runs of the loop from a map to the map that it leaves: its test fails, there is nothing to
  -- remove, or it removes an entry and goes on.
  pub data Runs (most : ℕ) : Map V → Map V → Type 0 where
    ended : {m : Map V} → length m < most → Runs most m m
    broke : {m : Map V} → most ≤ length m → min_by_key exp_of m ≡ none → Runs most m m
    removed :
        {m m' : Map V} (k : Text) (v : V)
        → most ≤ length m
        → min_by_key exp_of m ≡ some (k, v)
        → Runs most (remove k m) m'
        → Runs most m m'

  -- With no entry the loop is over.
  over : (most : ℕ) (m : Map V) → m ≡ [] → Runs most m m
  over most m e = elim (Bool-cases (ltb (length m) most)) [
    | inl q ↦ ended (ground arith)
    | inr q ↦ broke (ground arith) (rw e (unfold min_by_key in refl))
  ]

  empty : (m : Map V) → length m ≤ 0 → m ≡ []
  empty [] h = refl
  empty (p ∷ m) h = absurd (omega arith)

  -- With fuel for every entry, the function leaves what the loop leaves: the loop ends, after at most
  -- as many rounds as the map has entries, whatever the cap.
  pub evict-Runs :
      (most fuel : ℕ) (m : Map V) → length m ≤ fuel → Runs most m (evict exp_of most fuel m)
  unfolding evict
  evict-Runs most zero m h = over most m (empty m h)
  evict-Runs most (suc fuel) m h = elim (Bool-cases (ltb (length m) most)) [
    | inl q ↦ rw q (ended (ground arith))
    | inr q ↦ elim (Option-cases (min_by_key exp_of m)) [
      | inl n ↦ rw (q, n) (broke (ground arith) n)
      | inr ((k, v), n) ↦
          let less = min_by_key-length-remove exp_of m k v n in
          rw (q, n)
            (removed k v (ground arith) n
              (evict-Runs most fuel (remove k m) (omega (arith, less, h))))
    ]
  ]

  key_of : Option (Text × V) → Text
  key_of none = []
  key_of (some (k, v)) = k

  -- The loop leaves one map.
  Runs-unique : (most : ℕ) {m a b : Map V} → Runs most m a → Runs most m b → a ≡ b
  unfolding key_of
  Runs-unique most (ended p) (ended q) = refl
  Runs-unique most (ended p) (broke q n) = refl
  Runs-unique most (ended p) (removed k v q n r) = absurd (omega (arith, p, q))
  Runs-unique most (broke p n) (ended q) = refl
  Runs-unique most (broke p n) (broke q n') = refl
  Runs-unique most (broke p n) (removed k v q n' r) = cc
  Runs-unique most (removed k v p n r) (ended q) = absurd (omega (arith, p, q))
  Runs-unique most (removed k v p n r) (broke q n') = cc
  Runs-unique most (removed k v p n r) (removed j u q n' s) =
      let same : j ≡ k = ap key_of (sym n' ∙ n) in Runs-unique most r (rw same at s)

  -- The eviction loop ends, after at most as many rounds as the map has entries, whatever the cap, and
  -- leaves what `evict` computes with fuel for every entry; with more fuel it is the same.
  pub evict-ends :
      (most fuel : ℕ) (m : Map V)
      → length m ≤ fuel
      → Runs most m (evict exp_of most (length m) m)
        × (evict exp_of most fuel m ≡ evict exp_of most (length m) m)
  evict-ends most fuel m h =
      let enough = evict-Runs most (length m) m (omega arith) in
      (enough, Runs-unique most (evict-Runs most fuel m h) enough)
