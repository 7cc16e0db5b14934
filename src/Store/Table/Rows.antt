-- ===== src/Store/Table/Rows.antt =====
-- store.rs: looking rows up by their key, after a replacement and in the answer of a query.
use vm_vitals.Base.{
  ℕ, ◌==◌, ◌≡◌, refl, ◌∙◌, Bool, true, false, ◌&&◌, List, [], ◌∷◌, Option, none, some, arith,
  if◌then◌else◌, Bool-cases, inl, inr,
}
use vm_vitals.Base.Int.{ℤ, eq_ℤ}
use vm_vitals.Store.Table.{Row, same_key, replace_row}

-- The row has the key.
unfoldable pub has_key : {F : Type 0} → ℤ → ℤ → ℕ → Row F → Bool
has_key res ts mid r = eq_ℤ r.res res && eq_ℤ r.ts ts && r.mid == mid

-- The row with a key.
unfoldable pub row_at : {F : Type 0} → ℤ → ℤ → ℕ → List (Row F) → Option (Row F)
unfolding has_key
row_at res ts mid [] = none
row_at res ts mid (r ∷ rows) = if has_key res ts mid r then some r else row_at res ts mid rows

pub eq_ℤ-trans : (a b d : ℤ) → eq_ℤ a b ≡ true → eq_ℤ b d ≡ eq_ℤ a d
eq_ℤ-trans a b d h = ground arith

module _ {F : Type 0} where
  has_key-same_key :
      (res ts : ℤ) (mid : ℕ) (r s : Row F)
      → same_key r s ≡ true
      → has_key res ts mid s ≡ has_key res ts mid r
  unfolding has_key same_key
  has_key-same_key res ts mid r s h =
      let a : eq_ℤ r.res s.res ≡ true = ground arith in
      let b : eq_ℤ r.ts s.ts ≡ true = ground arith in
      let d : r.mid ≡ s.mid = ground arith in
      rw (eq_ℤ-trans r.res s.res res a, eq_ℤ-trans r.ts s.ts ts b, d)

  has_key_once :
      (res ts : ℤ) (mid : ℕ) (r s : Row F)
      → same_key r s ≡ false
      → has_key res ts mid r ≡ true
      → has_key res ts mid s ≡ false
  unfolding has_key same_key
  has_key_once res ts mid r s h k =
      let a : eq_ℤ s.res res ≡ eq_ℤ r.res s.res = ground arith in
      let b : eq_ℤ s.ts ts ≡ eq_ℤ r.ts s.ts = ground arith in
      let d : (s.mid == mid) ≡ (r.mid == s.mid) = ground arith in rw (a, b, d) h

  -- A replacement is found under its own key, and changes no other.
  pub row_at-replace_row :
      (res ts : ℤ) (mid : ℕ) (r : Row F) (rows : List (Row F))
      → row_at res ts mid (replace_row r rows)
        ≡ (if has_key res ts mid r then some r else row_at res ts mid rows)
  unfolding row_at replace_row
  row_at-replace_row res ts mid r [] = refl
  row_at-replace_row res ts mid r (s ∷ rows) = elim (Bool-cases (same_key r s)) [
    | inl e ↦ elim (Bool-cases (has_key res ts mid r)) [
      | inl k ↦ rw (e, k)
      | inr k ↦ rw (e, k, has_key-same_key res ts mid r s e, k)
    ]
    | inr e ↦ elim (Bool-cases (has_key res ts mid r)) [
      | inl k ↦ rw (e, has_key_once res ts mid r s e k, row_at-replace_row res ts mid r rows, k)
      | inr k ↦ rw (e, row_at-replace_row res ts mid r rows, k)
    ]
  ]

  -- No two rows have one key.
  abbrev pub KeysDistinct : List (Row F) → Type 0
  KeysDistinct [] = Unit
  KeysDistinct (r ∷ rows) = (row_at r.res r.ts r.mid rows ≡ none) × KeysDistinct rows

  has_key_other : (r s : Row F) → same_key r s ≡ false → has_key s.res s.ts s.mid r ≡ false
  unfolding has_key same_key
  has_key_other r s h = h

  -- Looking up does not tell apart two rows with the same key.
  row_at-same_key :
      (r s : Row F) (rows : List (Row F))
      → same_key r s ≡ true
      → row_at r.res r.ts r.mid rows ≡ row_at s.res s.ts s.mid rows
  unfolding row_at has_key same_key
  row_at-same_key r s [] h = refl
  row_at-same_key r s (x ∷ rows) h =
      let a : eq_ℤ x.res r.res ≡ eq_ℤ x.res s.res = ground arith in
      let b : eq_ℤ x.ts r.ts ≡ eq_ℤ x.ts s.ts = ground arith in
      let d : r.mid ≡ s.mid = ground arith in rw (a, b, d, row_at-same_key r s rows h)

  pub replace_row-KeysDistinct :
      (r : Row F) (rows : List (Row F)) → KeysDistinct rows → KeysDistinct (replace_row r rows)
  unfolding replace_row row_at
  replace_row-KeysDistinct r [] d = (refl, tt)
  replace_row-KeysDistinct r (s ∷ rows) d = elim (Bool-cases (same_key r s)) [
    | inl e ↦ rw e (row_at-same_key r s rows e ∙ d.0, d.1)
    | inr e ↦ rw e (
      rw (row_at-replace_row s.res s.ts s.mid r rows, has_key_other r s e) d.0,
      replace_row-KeysDistinct r rows d.1,
    )
  ]
