-- ===== src/Store/Compact/Run/Keeps.antt =====
-- store.rs, `try_compact`: the tables stay in order.
use vm_vitals.Base.{
  ℕ, ◌==◌, ◌≡◌, refl, inl, inr, ◌&&◌, List, [], ◌∷◌, none, some, arith, All, Bool-cases, Text,
}
use vm_vitals.Store.Buckets.{raw, five_min, hour}
use vm_vitals.Base.Int.{ℤ, pos, ◌-ℤ◌, leb_ℤ, ltb_ℤ, eq_ℤ}
use vm_vitals.Store.Table.{Row, Tables, id_of}
use vm_vitals.Store.Table.Rows.{has_key, row_at, KeysDistinct, replace_row-KeysDistinct}
use vm_vitals.Store.Table.Sound.{HasName, InOrder, replace_row-All}
use vm_vitals.Store.Compact.{
  Aggregate, Group, group_of, combine, add_group, group_rows, row_of, replace_groups, roll_up,
  prune, compact_samples, rollup_from, raw_retention, five_min_retention, hour_retention,
}
use vm_vitals.Store.Compact.Run.{compact_tables}
use vm_vitals.Store.Compact.Run.Names.{
  id_of-drop_unused_was, drop_unused-NamesDistinct, drop_unused-HasName,
}

module _ {F : Type 0} (ag : Aggregate F) where
  -- A rollup makes rows of the metrics that it reads.
  add_group-All {κ} :
      (P : ℕ → Type κ) (g : Group F) (groups : List (Group F))
      → P g.mid
      → All (λ s. P s.mid) groups
      → All (λ s. P s.mid) (add_group ag g groups)
  unfolding add_group combine
  add_group-All P g [] p all = (p, tt)
  add_group-All P g (s ∷ groups) p all = elim (Bool-cases (g.mid == s.mid && eq_ℤ g.ts s.ts)) [
    | inl e ↦ rw e all
    | inr e ↦ rw e (all.0, add_group-All P g groups p all.1)
  ]

  group_rows-All {κ} :
      (P : ℕ → Type κ) (width source : ℕ) (lo : ℤ) (rows : List (Row F))
      → All (λ r. P r.mid) rows
      → All (λ s. P s.mid) (group_rows ag width source lo rows)
  unfolding group_rows group_of
  group_rows-All P width source lo [] all = tt
  group_rows-All P width source lo (r ∷ rows) all =
      elim (Bool-cases (eq_ℤ r.res (pos source) && leb_ℤ lo r.ts)) [
        | inl e ↦ rw e (
            add_group-All P (group_of ag width r) _ all.0
              (group_rows-All P width source lo rows all.1))
        | inr e ↦ rw e (group_rows-All P width source lo rows all.1)
      ]

  replace_groups-All {κ} :
      (P : ℕ → Type κ) (width : ℕ) (groups : List (Group F)) (rows : List (Row F))
      → All (λ s. P s.mid) groups
      → All (λ r. P r.mid) rows
      → All (λ r. P r.mid) (replace_groups ag width groups rows)
  unfolding replace_groups row_of
  replace_groups-All P width [] rows gs all = all
  replace_groups-All P width (g ∷ groups) rows gs all =
      replace_groups-All P width groups _ gs.1
        (replace_row-All (λ r. P r.mid) (row_of ag width g) rows gs.0 all)

  roll_up-All {κ} :
      (P : ℕ → Type κ) (width source : ℕ) (lo : ℤ) (rows : List (Row F))
      → All (λ r. P r.mid) rows
      → All (λ r. P r.mid) (roll_up ag width source lo rows)
  unfolding roll_up
  roll_up-All P width source lo rows all =
      replace_groups-All P width _ rows (group_rows-All P width source lo rows all) all

  prune-All {κ} :
      (P : ℕ → Type κ) (res : ℕ) (cut : ℤ) (rows : List (Row F))
      → All (λ r. P r.mid) rows
      → All (λ r. P r.mid) (prune ag res cut rows)
  unfolding prune
  prune-All P res cut [] all = tt
  prune-All P res cut (r ∷ rows) all = elim (Bool-cases (eq_ℤ r.res (pos res) && ltb_ℤ r.ts cut)) [
    | inl e ↦ rw e (prune-All P res cut rows all.1)
    | inr e ↦ rw e (all.0, prune-All P res cut rows all.1)
  ]

  -- What each of the five statements keeps, they keep together.
  compact_samples-keeps {κ} :
      (P : List (Row F) → Type κ)
      → ((width source : ℕ) (lo : ℤ) (rows : List (Row F))
          → P rows
          → P (roll_up ag width source lo rows))
      → ((res : ℕ) (cut : ℤ) (rows : List (Row F)) → P rows → P (prune ag res cut rows))
      → (last now : ℤ) (rows : List (Row F)) → P rows
      → P (compact_samples ag last now rows)
  unfolding compact_samples
  compact_samples-keeps P rolls prunes last now rows p =
      let lo5 = rollup_from five_min raw_retention last now in
      let lo60 = rollup_from hour five_min_retention last now in
      let fives = rolls five_min raw lo5 rows p in
      let hours = rolls hour five_min lo60 _ fives in
      let raws = prunes raw (now -ℤ pos raw_retention) _ hours in
      prunes hour (now -ℤ pos hour_retention) _
        (prunes five_min (now -ℤ pos five_min_retention) _ raws)

  -- No statement makes a second row of a key.
  replace_groups-KeysDistinct :
      (width : ℕ) (groups : List (Group F)) (rows : List (Row F))
      → KeysDistinct rows
      → KeysDistinct (replace_groups ag width groups rows)
  unfolding replace_groups
  replace_groups-KeysDistinct width [] rows d = d
  replace_groups-KeysDistinct width (g ∷ groups) rows d =
      replace_groups-KeysDistinct width groups _
        (replace_row-KeysDistinct (row_of ag width g) rows d)

  row_at-prune_absent :
      (p : ℕ) (cut res ts : ℤ) (mid : ℕ) (rows : List (Row F))
      → row_at res ts mid rows ≡ none
      → row_at res ts mid (prune ag p cut rows) ≡ none
  unfolding row_at prune
  row_at-prune_absent p cut res ts mid [] h = refl
  row_at-prune_absent p cut res ts mid (r ∷ rows) h = elim (Bool-cases (has_key res ts mid r)) [
    | inl k ↦ let h' = rw k at h in absurd (ground arith)
    | inr k ↦
        let rest = row_at-prune_absent p cut res ts mid rows (rw k at h) in
        elim (Bool-cases (eq_ℤ r.res (pos p) && ltb_ℤ r.ts cut)) [
          | inl e ↦ rw e rest
          | inr e ↦ rw (e, k) rest
        ]
  ]

  prune-KeysDistinct :
      (p : ℕ) (cut : ℤ) (rows : List (Row F))
      → KeysDistinct rows
      → KeysDistinct (prune ag p cut rows)
  unfolding prune
  prune-KeysDistinct p cut [] d = tt
  prune-KeysDistinct p cut (r ∷ rows) d = elim (Bool-cases (eq_ℤ r.res (pos p) && ltb_ℤ r.ts cut)) [
    | inl e ↦ rw e (prune-KeysDistinct p cut rows d.1)
    | inr e ↦
        rw e
          (row_at-prune_absent p cut r.res r.ts r.mid rows d.0, prune-KeysDistinct p cut rows d.1)
  ]

  roll_up-KeysDistinct :
      (width source : ℕ) (lo : ℤ) (rows : List (Row F))
      → KeysDistinct rows
      → KeysDistinct (roll_up ag width source lo rows)
  unfolding roll_up
  roll_up-KeysDistinct width source lo rows d =
      replace_groups-KeysDistinct width (group_rows ag width source lo rows) rows d

  -- A compaction keeps the tables in order.
  pub compact_tables-InOrder :
      (last now : ℤ) (t : Tables F) → InOrder t → InOrder (compact_tables ag last now t)
  unfolding compact_tables
  compact_tables-InOrder last now t o =
      let rows = compact_samples ag last now t.samples in
      let is_id : ℕ → Type 0 = λ mid. (name : Text) × (id_of name t.metric ≡ some mid) in
      let named =
        compact_samples-keeps (All (HasName t.metric)) (roll_up-All is_id) (prune-All is_id) last
          now t.samples o.named in
      record {
        names = drop_unused-NamesDistinct rows t.metric o.names;
        injective = λ m n i p q.
            o.injective m n i (id_of-drop_unused_was rows t.metric m i o.names p)
              (id_of-drop_unused_was rows t.metric n i o.names q);
        named = drop_unused-HasName rows t.metric o.names named;
        keys =
            compact_samples-keeps KeysDistinct roll_up-KeysDistinct prune-KeysDistinct last now
              t.samples o.keys;
      }
