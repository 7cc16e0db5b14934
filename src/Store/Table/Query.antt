-- ===== src/Store/Table/Query.antt =====
-- store.rs, `series`: the rows that a query selects, and their order.
use vm_vitals.Base.{
  ℕ, ◌==◌, ◌≡◌, refl, Bool, true, false, ◌&&◌, List, [], ◌∷◌, none, some, arith, if◌then◌else◌, All,
  Bool-cases, inl, inr,
}
use vm_vitals.Base.Int.{ℤ, pos, negsuc, leb_ℤ, ltb_ℤ, eq_ℤ}
use vm_vitals.Store.Table.{Row, insert_by_ts, select_rows}
use vm_vitals.Store.Table.Rows.{has_key, row_at, KeysDistinct}

pub eq_ℤ→eq : (a b : ℤ) → eq_ℤ a b ≡ true → a ≡ b
eq_ℤ→eq (pos a) (pos b) h = ground arith
eq_ℤ→eq (pos a) (negsuc b) h = absurd (ground arith)
eq_ℤ→eq (negsuc a) (pos b) h = absurd (ground arith)
eq_ℤ→eq (negsuc a) (negsuc b) h = ground arith

-- The time is in the range.
abbrev pub within : ℤ → ℤ → ℤ → Bool
within from to ts = leb_ℤ from ts && leb_ℤ ts to

module _ {F : Type 0} where
  has_key_later :
      (res ts : ℤ) (mid : ℕ) (r s : Row F)
      → leb_ℤ r.ts s.ts ≡ false
      → has_key res ts mid r ≡ true
      → has_key res ts mid s ≡ false
  unfolding has_key
  has_key_later res ts mid r s h k = let e : eq_ℤ s.ts ts ≡ false = ground arith in ground arith

  row_at-insert_by_ts :
      (res ts : ℤ) (mid : ℕ) (r : Row F) (rows : List (Row F))
      → row_at res ts mid (insert_by_ts r rows)
        ≡ (if has_key res ts mid r then some r else row_at res ts mid rows)
  unfolding row_at insert_by_ts
  row_at-insert_by_ts res ts mid r [] = refl
  row_at-insert_by_ts res ts mid r (s ∷ rows) = elim (Bool-cases (leb_ℤ r.ts s.ts)) [
    | inl e ↦ rw e refl
    | inr e ↦ elim (Bool-cases (has_key res ts mid r)) [
      | inl k ↦ rw (e, has_key_later res ts mid r s e k, row_at-insert_by_ts res ts mid r rows, k)
      | inr k ↦ rw (e, row_at-insert_by_ts res ts mid r rows, k)
    ]
  ]

  picks : ℕ → ℤ → ℤ → ℤ → Row F → Bool
  picks mid res from to r = r.mid == mid && eq_ℤ r.res res && leb_ℤ from r.ts && leb_ℤ r.ts to

  picks-within :
      (mid : ℕ) (res from to ts : ℤ) (r : Row F)
      → has_key res ts mid r ≡ true
      → within from to ts ≡ picks mid res from to r
  unfolding has_key picks
  picks-within mid res from to ts r k =
      let a : leb_ℤ from r.ts ≡ leb_ℤ from ts = ground arith in
      let b : leb_ℤ r.ts to ≡ leb_ℤ ts to = ground arith in
      let d : (r.mid == mid) ≡ true = ground arith in
      let e : eq_ℤ r.res res ≡ true = ground arith in rw (a, b, d, e)

  select_rows-cons :
      (mid : ℕ) (res from to : ℤ) (r : Row F) (rows : List (Row F))
      → select_rows mid res from to (r ∷ rows) ≡ (
          if picks mid res from to r
          then insert_by_ts r (select_rows mid res from to rows)
          else select_rows mid res from to rows)
  unfolding select_rows picks
  select_rows-cons mid res from to r rows = refl

  -- A selection finds the row of a time exactly when the time is in the range.
  pub row_at-select_rows :
      (mid : ℕ) (res from to ts : ℤ) (rows : List (Row F))
      → row_at res ts mid (select_rows mid res from to rows)
        ≡ (if within from to ts then row_at res ts mid rows else none)
  unfolding row_at
  row_at-select_rows mid res from to ts [] = unfold select_rows in ground arith
  row_at-select_rows mid res from to ts (r ∷ rows) =
      let rest = row_at-select_rows mid res from to ts rows in
      rw (select_rows-cons mid res from to r rows) (elim (Bool-cases (has_key res ts mid r)) [
        | inl k ↦ elim (Bool-cases (picks mid res from to r)) [
          | inl p ↦ rw (p, row_at-insert_by_ts, k, picks-within mid res from to ts r k, p)
          | inr p ↦ rw (
            p,
            picks-within mid res from to ts r k,
            p,
            rest,
            picks-within mid res from to ts r k,
            p,
          )
        ]
        | inr k ↦ elim (Bool-cases (picks mid res from to r)) [
          | inl p ↦ rw (p, row_at-insert_by_ts, k, rest)
          | inr p ↦ rw (p, k, rest)
        ]
      ])

  -- The times strictly increase.
  abbrev pub IsSorted : List (Row F) → Type 0
  IsSorted [] = Unit
  IsSorted (r ∷ rows) = All (λ s. ltb_ℤ r.ts s.ts ≡ true) rows × IsSorted rows

  insert_by_ts-All {κ} :
      (P : Row F → Type κ) (r : Row F) (rows : List (Row F))
      → P r
      → All P rows
      → All P (insert_by_ts r rows)
  unfolding insert_by_ts
  insert_by_ts-All P r [] p all = (p, tt)
  insert_by_ts-All P r (s ∷ rows) p all = elim (Bool-cases (leb_ℤ r.ts s.ts)) [
    | inl e ↦ rw e (p, all)
    | inr e ↦ rw e (all.0, insert_by_ts-All P r rows p all.1)
  ]

  rows_later :
      (r s : Row F) (rows : List (Row F))
      → ltb_ℤ r.ts s.ts ≡ true
      → All (λ x. ltb_ℤ s.ts x.ts ≡ true) rows
      → All (λ x. ltb_ℤ r.ts x.ts ≡ true) rows
  rows_later r s [] h all = tt
  rows_later r s (x ∷ rows) h all = (ground arith, rows_later r s rows h all.1)

  insert_by_ts-IsSorted :
      (r : Row F) (rows : List (Row F))
      → All (λ s. eq_ℤ s.ts r.ts ≡ false) rows
      → IsSorted rows
      → IsSorted (insert_by_ts r rows)
  unfolding insert_by_ts
  insert_by_ts-IsSorted r [] new d = (tt, tt)
  insert_by_ts-IsSorted r (s ∷ rows) new d = elim (Bool-cases (leb_ℤ r.ts s.ts)) [
    | inl e ↦
        let before : ltb_ℤ r.ts s.ts ≡ true = ground (arith, new.0) in
        rw e ((before, rows_later r s rows before d.0), d)
    | inr e ↦ rw e (
      insert_by_ts-All (λ x. ltb_ℤ s.ts x.ts ≡ true) r rows (ground arith) d.0,
      insert_by_ts-IsSorted r rows new.1 d.1,
    )
  ]

  -- Every selected row has the metric and the resolution of the query.
  pub select_rows-All :
      (mid : ℕ) (res from to : ℤ) (rows : List (Row F))
      → All (λ r. (r.mid ≡ mid) × (eq_ℤ r.res res ≡ true)) (select_rows mid res from to rows)
  select_rows-All mid res from to [] = unfold select_rows in tt
  select_rows-All mid res from to (r ∷ rows) =
      rw (select_rows-cons mid res from to r rows) (elim (Bool-cases (picks mid res from to r)) [
        | inl p ↦ rw p (
            insert_by_ts-All (λ r. (r.mid ≡ mid) × (eq_ℤ r.res res ≡ true)) r _
              (unfold picks in (ground arith, ground arith)) (select_rows-All mid res from to rows))
        | inr p ↦ rw p (select_rows-All mid res from to rows)
      ])

  -- A row whose key is not there has another time than the rows of its metric and resolution.
  absent_time :
      (r : Row F) (mid : ℕ) (res : ℤ) (rows : List (Row F))
      → r.mid ≡ mid
      → eq_ℤ r.res res ≡ true
      → All (λ s. (s.mid ≡ mid) × (eq_ℤ s.res res ≡ true)) rows
      → row_at r.res r.ts r.mid rows ≡ none
      → All (λ s. eq_ℤ s.ts r.ts ≡ false) rows
  unfolding row_at has_key
  absent_time r mid res [] a b all h = tt
  absent_time r mid res (s ∷ rows) a b all h =
      let same : eq_ℤ s.res r.res ≡ true = ground (arith, all.0.1) in
      let mine : (s.mid == r.mid) ≡ true = ground (arith, all.0.0) in
      elim (Bool-cases (eq_ℤ s.ts r.ts)) [
        | inl e ↦ let h' = rw (same, e, mine) at h in absurd (ground arith)
        | inr e ↦ (e, absent_time r mid res rows a b all.1 (rw (same, e) at h))
      ]

  pub select_rows-IsSorted :
      (mid : ℕ) (res from to : ℤ) (rows : List (Row F))
      → KeysDistinct rows
      → IsSorted (select_rows mid res from to rows)
  select_rows-IsSorted mid res from to [] d = unfold select_rows in tt
  select_rows-IsSorted mid res from to (r ∷ rows) d =
      let sorted = select_rows-IsSorted mid res from to rows d.1 in
      rw (select_rows-cons mid res from to r rows) (elim (Bool-cases (picks mid res from to r)) [
        | inr p ↦ rw p sorted
        | inl p ↦
            let a : r.mid ≡ mid = unfold picks in ground arith in
            let b : eq_ℤ r.res res ≡ true = unfold picks in ground arith in
            let absent : row_at r.res r.ts r.mid (select_rows mid res from to rows) ≡ none =
              rw (eq_ℤ→eq r.res res b, a, row_at-select_rows mid res from to r.ts rows)
                (rw (← eq_ℤ→eq r.res res b, ← a, d.0) (ground arith)) in
            rw p (
              insert_by_ts-IsSorted r _
                (absent_time r mid res _ a b (select_rows-All mid res from to rows) absent) sorted)
      ])
