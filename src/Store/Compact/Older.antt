-- ===== src/Store/Compact/Older.antt =====
-- store.rs, `try_compact`: the rows that a compaction leaves alone.
use vm_vitals.Base.{
  ℕ, ◌*◌, ◌<◌, ◌==◌, ◌≡◌, refl, ◌∙◌, true, false, ◌&&◌, List, [], ◌∷◌, arith, All, Bool-cases, inl,
  inr,
}
use vm_vitals.Base.Int.{ℤ, pos, negsuc, ◌≤ℤ◌, ◌-ℤ◌, leb_ℤ, ltb_ℤ, eq_ℤ}
use vm_vitals.Store.Buckets.{raw, five_min, hour, ceil_bucket_least, boundary_le}
use vm_vitals.Store.Table.{Row, replace_row}
use vm_vitals.Store.Table.Rows.{has_key, row_at, row_at-replace_row}
use vm_vitals.Store.Compact.{
  Aggregate, Group, bucket_of, group_of, combine, add_group, group_rows, row_of, replace_groups,
  roll_up, prune, rollup_from, compact_samples, min_ℤ, max_ℤ, raw_retention, five_min_retention,
  hour_retention,
}

-- No row before a boundary counts for a bucket behind it.
bucket_of-le :
    (width k : ℕ) (ts : ℤ)
    → 0 < width
    → pos (k * width) ≤ℤ ts
    → pos (k * width) ≤ℤ bucket_of width ts
unfolding bucket_of
bucket_of-le width k (pos t) w h = omega (arith, boundary_le t k width w (omega (arith, h)))
bucket_of-le width k (negsuc t) w h = absurd (omega arith)

max_ℤ-le : (a b : ℤ) → b ≤ℤ max_ℤ a b
unfolding max_ℤ
max_ℤ-le a b = ground arith

module _ {F : Type 0} (ag : Aggregate F) where
  add_group-All :
      (lo : ℤ) (g : Group F) (groups : List (Group F))
      → lo ≤ℤ g.ts
      → All (λ s. lo ≤ℤ s.ts) groups
      → All (λ s. lo ≤ℤ s.ts) (add_group ag g groups)
  unfolding add_group combine
  add_group-All lo g [] h all = (h, tt)
  add_group-All lo g (s ∷ groups) h all = elim (Bool-cases (g.mid == s.mid && eq_ℤ g.ts s.ts)) [
    | inl e ↦ rw e (all.0, all.1)
    | inr e ↦ rw e (all.0, add_group-All lo g groups h all.1)
  ]

  group_rows-All :
      (width source k : ℕ) (rows : List (Row F))
      → 0 < width
      → All (λ s. pos (k * width) ≤ℤ s.ts) (group_rows ag width source (pos (k * width)) rows)
  unfolding group_rows group_of
  group_rows-All width source k [] w = tt
  group_rows-All width source k (r ∷ rows) w =
      elim (Bool-cases (eq_ℤ r.res (pos source) && leb_ℤ (pos (k * width)) r.ts)) [
        | inr e ↦ rw e (group_rows-All width source k rows w)
        | inl e ↦ rw e (
            add_group-All (pos (k * width)) (group_of ag width r) _
              (bucket_of-le width k r.ts w (ground arith)) (group_rows-All width source k rows w))
      ]

  away :
      (width : ℕ) (lo res ts : ℤ) (mid : ℕ) (g : Group F)
      → (leb_ℤ lo ts && eq_ℤ (pos width) res) ≡ false
      → lo ≤ℤ g.ts
      → has_key res ts mid (row_of ag width g) ≡ false
  unfolding has_key row_of
  away width lo res ts mid g h b = elim (Bool-cases (eq_ℤ (pos width) res)) [
    | inr e ↦ rw e refl
    | inl e ↦ elim (Bool-cases (eq_ℤ g.ts ts)) [
      | inr f ↦ rw (e, f) refl
      | inl f ↦ absurd (ground arith)
    ]
  ]

  row_at-replace_groups :
      (width : ℕ) (lo res ts : ℤ) (mid : ℕ) (groups : List (Group F)) (rows : List (Row F))
      → (leb_ℤ lo ts && eq_ℤ (pos width) res) ≡ false
      → All (λ s. lo ≤ℤ s.ts) groups
      → row_at res ts mid (replace_groups ag width groups rows) ≡ row_at res ts mid rows
  unfolding replace_groups row_of
  row_at-replace_groups width lo res ts mid [] rows h all = refl
  row_at-replace_groups width lo res ts mid (g ∷ groups) rows h all = rw (
    row_at-replace_groups width lo res ts mid groups (replace_row (row_of ag width g) rows) h all.1,
    row_at-replace_row res ts mid (row_of ag width g) rows,
    away width lo res ts mid g h all.0,
  )

  gone :
      (p : ℕ) (cut res ts : ℤ) (mid : ℕ) (r : Row F)
      → (eq_ℤ (pos p) res && ltb_ℤ ts cut) ≡ false
      → (eq_ℤ r.res (pos p) && ltb_ℤ r.ts cut) ≡ true
      → has_key res ts mid r ≡ false
  unfolding has_key
  gone p cut res ts mid r h e = elim (Bool-cases (eq_ℤ r.res res)) [
    | inr f ↦ rw f refl
    | inl f ↦ elim (Bool-cases (eq_ℤ r.ts ts)) [
      | inr g ↦ rw (f, g) refl
      | inl g ↦ absurd (ground arith)
    ]
  ]

  pub row_at-prune :
      (p : ℕ) (cut res ts : ℤ) (mid : ℕ) (rows : List (Row F))
      → (eq_ℤ (pos p) res && ltb_ℤ ts cut) ≡ false
      → row_at res ts mid (prune ag p cut rows) ≡ row_at res ts mid rows
  unfolding row_at prune
  row_at-prune p cut res ts mid [] h = refl
  row_at-prune p cut res ts mid (r ∷ rows) h =
      elim (Bool-cases (eq_ℤ r.res (pos p) && ltb_ℤ r.ts cut)) [
        | inl e ↦ rw (e, gone p cut res ts mid r h e) (row_at-prune p cut res ts mid rows h)
        | inr e ↦ rw (e, row_at-prune p cut res ts mid rows h)
      ]

  row_at-roll_up :
      (width source k : ℕ) (res ts : ℤ) (mid : ℕ) (rows : List (Row F))
      → 0 < width
      → (leb_ℤ (pos (k * width)) ts && eq_ℤ (pos width) res) ≡ false
      → row_at res ts mid (roll_up ag width source (pos (k * width)) rows) ≡ row_at res ts mid rows
  unfolding roll_up
  row_at-roll_up width source k res ts mid rows w h =
      row_at-replace_groups width (pos (k * width)) res ts mid _ rows h
        (group_rows-All width source k rows w)

  rollup_from_boundary :
      (width retention : ℕ) (last now : ℤ)
      → 0 < width
      → (k : ℕ) × (rollup_from width retention last now ≡ pos (k * width))
        × ((now -ℤ pos retention) ≤ℤ rollup_from width retention last now)
  unfolding rollup_from
  rollup_from_boundary width retention last now w =
      let from = max_ℤ (min_ℤ last (now -ℤ pos (2 * width))) (now -ℤ pos retention) in
      let (k, e, up, _) = ceil_bucket_least from width w in
      (
        k,
        e,
        omega (arith, up, max_ℤ-le (min_ℤ last (now -ℤ pos (2 * width))) (now -ℤ pos retention)),
      )

  pub row_at-roll_up_from :
      (width source retention : ℕ) (last now res ts : ℤ) (mid : ℕ) (rows : List (Row F))
      → 0 < width
      → (leb_ℤ (rollup_from width retention last now) ts && eq_ℤ (pos width) res) ≡ false
      → row_at res ts mid (roll_up ag width source (rollup_from width retention last now) rows)
        ≡ row_at res ts mid rows
  row_at-roll_up_from width source retention last now res ts mid rows w h =
      let (k, e, _) = rollup_from_boundary width retention last now w in
      rw e (row_at-roll_up width source k res ts mid rows w (rw e at h))

  -- A compaction starts its five-minute rollup at a time that is not before the cut of the raw samples;
  -- a five-minute row from before that time, and still within its own retention, stays as it is.
  pub compact_samples_older :
      (last now t : ℤ) (mid : ℕ) (rows : List (Row F))
      → ltb_ℤ t (rollup_from five_min raw_retention last now) ≡ true
      → (now -ℤ pos five_min_retention) ≤ℤ t
      → ((now -ℤ pos raw_retention) ≤ℤ rollup_from five_min raw_retention last now)
        × (row_at (pos five_min) t mid (compact_samples ag last now rows)
            ≡ row_at (pos five_min) t mid rows)
  unfolding compact_samples
  compact_samples_older last now t mid rows older kept =
      let (k, e, cut) = rollup_from_boundary five_min raw_retention last now (omega arith) in
      let res : ℤ = pos five_min in
      let cut5 = now -ℤ pos five_min_retention in
      let in_time : ltb_ℤ t cut5 ≡ false = ground arith in
      let before : leb_ℤ (rollup_from five_min raw_retention last now) t ≡ false = ground arith in
      let hourly : (leb_ℤ (rollup_from hour five_min_retention last now) t && eq_ℤ (pos hour) res)
          ≡ false =
        ground arith in
      (
        cut,
        row_at-prune hour (now -ℤ pos hour_retention) res t mid _ refl
            ∙ row_at-prune five_min cut5 res t mid _ (rw in_time refl)
            ∙ row_at-prune raw (now -ℤ pos raw_retention) res t mid _ refl
            ∙ row_at-roll_up_from hour five_min five_min_retention last now res t mid _
                (omega arith) hourly
            ∙ row_at-roll_up_from five_min raw raw_retention last now res t mid rows (omega arith)
                (rw before refl),
      )
