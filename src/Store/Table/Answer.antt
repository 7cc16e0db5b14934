-- ===== src/Store/Table/Answer.antt =====
-- store.rs, `series`, against the contents of the store.
use mathlib.Core.Option
use vm_vitals.Base.{
  ℕ, ◌==◌, ◌≡◌, refl, inl, inr, true, List, [], ◌∷◌, Option, none, some, arith, if◌then◌else◌, All,
  Bool-cases, Option-cases, Text, take, take-nil,
}
use vm_vitals.Base.Int.{ℤ, eq_ℤ}
use vm_vitals.Store.Table.{Row, History, id_of, series, columns, select_rows}
use vm_vitals.Store.Table.Rows.{has_key, row_at}
use vm_vitals.Store.Table.Query.{
  within, IsSorted, row_at-select_rows, select_rows-IsSorted, select_rows-All,
}
use vm_vitals.Store.Table.Sound.{Sound}
use vm_vitals.Store.Table.Content.{Contents, stat_of, content, find_row}

module _ {F : Type 0} where
  -- The row of a time, in an answer.
  unfoldable pub row_on : ℤ → List (Row F) → Option (Row F)
  row_on t [] = none
  row_on t (r ∷ rows) = if eq_ℤ r.ts t then some r else row_on t rows

  row_on-row_at :
      (res t : ℤ) (mid : ℕ) (rows : List (Row F))
      → All (λ r. (r.mid ≡ mid) × (eq_ℤ r.res res ≡ true)) rows
      → row_on t rows ≡ row_at res t mid rows
  unfolding row_on row_at has_key
  row_on-row_at res t mid [] all = refl
  row_on-row_at res t mid (r ∷ rows) all =
      let m : (r.mid == mid) ≡ true = ground (arith, all.0.0) in
      elim (Bool-cases (eq_ℤ r.ts t)) [
        | inl e ↦ rw (all.0.1, e, m)
        | inr e ↦ rw (all.0.1, e, row_on-row_at res t mid rows all.1)
      ]

  -- The rows that an answer is cut from: at each time in the range what the contents have, and at no
  -- other, each time once, in order.
  pub record Answers (f : Contents F) (name : Text) (from to res : ℤ) (rows : List (Row F))
      : Type 0 where
    pub found :
        (t : ℤ)
        → Option.map stat_of (row_on t rows) ≡ (if within from to t then f name res t else none)
    pub sorted : IsSorted rows

  -- On a store in order, a query answers with the earliest rows, up to the limit, of a list in
  -- order of time that has, at each time in its range, what the contents have, and no other.
  pub series-Answers :
      (name : Text) (from to res : ℤ) (limit : ℕ) (h : History F)
      → Sound h
      → (rows : List (Row F)) × (series name from to res limit h ≡ columns (take limit rows))
        × Answers (content h) name from to res rows
  unfolding content find_row series
  series-Answers name from to res limit h s = elim (Option-cases (id_of name h.tables.metric)) [
    | inl e ↦ (
      [],
      rw (e, series, take-nil limit),
      record { found = λ t. rw e (unfold row_on in ground arith); sorted = tt },
    )
    | inr (mid, e) ↦
        let rows = select_rows mid res from to h.tables.samples in
        (
          rows,
          rw (e, series),
          record {
            found = λ t.
                rw
                  (
                    e,
                    row_on-row_at res t mid rows (select_rows-All mid res from to h.tables.samples),
                    row_at-select_rows mid res from to t h.tables.samples,
                  )
                  (elim (Bool-cases (within from to t)) [ inl w ↦ rw w | inr w ↦ rw w ]);
            sorted = select_rows-IsSorted mid res from to h.tables.samples s.inside.keys;
          },
        )
  ]
