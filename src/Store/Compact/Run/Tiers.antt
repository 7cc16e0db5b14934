-- ===== src/Store/Compact/Run/Tiers.antt =====
-- store.rs, `try_compact`: each resolution after a compaction, and what a client sees of it.
use mathlib.Core.Option
use vm_vitals.Base.{
  ℕ, ◌==◌, ◌≡◌, refl, sym, ◌∙◌, ap, inl, inr, Bool, true, false, ◌&&◌, List, [], ◌∷◌, Option, none,
  some, arith, if◌then◌else◌, Bool-cases, Option-cases, Text, ok,
}
use vm_vitals.Base.Int.{ℤ, pos, ◌-ℤ◌, ltb_ℤ, leb_ℤ, eq_ℤ}
use vm_vitals.Store.Buckets.{raw, five_min, hour}
use vm_vitals.Store.Table.{Row, Tables, History, id_of}
use vm_vitals.Store.Table.Rows.{has_key, row_at}
use vm_vitals.Store.Table.Sound.{Sound, InOrder}
use vm_vitals.Store.Table.Content.{Stat, content, find_row, stat_of}
use vm_vitals.Store.Compact.{
  Aggregate, roll_up, prune, compact_samples, rollup_from, raw_retention, five_min_retention,
  hour_retention,
}
use vm_vitals.Store.Compact.Groups.{rolled_up, roll_up-summary}
use vm_vitals.Store.Compact.Older.{row_at-prune, row_at-roll_up_from}
use vm_vitals.Store.Compact.Run.{
  CompactRun, all_execute, last_of, is_used, drop_unused, compact_tables, try_compact,
}
use vm_vitals.Store.Compact.Run.Reach.{reopened}
use vm_vitals.Store.Compact.Run.Names.{id_of-drop_unused}

-- A row within its retention, and none before the cut.
unfoldable pub from_cut : {F : Type 0} → ℤ → ℤ → Option (Row F) → Option (Row F)
from_cut cut t row = if ltb_ℤ t cut then none else row

module _ {F : Type 0} (ag : Aggregate F) where
  row_at-prune_old :
      (p : ℕ) (cut t : ℤ) (mid : ℕ) (rows : List (Row F))
      → ltb_ℤ t cut ≡ true
      → row_at (pos p) t mid (prune ag p cut rows) ≡ none
  unfolding row_at prune has_key
  row_at-prune_old p cut t mid [] h = refl
  row_at-prune_old p cut t mid (r ∷ rows) h =
      let rest = row_at-prune_old p cut t mid rows h in
      elim (Bool-cases (eq_ℤ r.res (pos p) && ltb_ℤ r.ts cut)) [
        | inl e ↦ rw e rest
        | inr e ↦
            let other : (eq_ℤ r.res (pos p) && eq_ℤ r.ts t && r.mid == mid) ≡ false =
              ground arith in
            rw (e, other) rest
      ]

  other_tier : (b : Bool) → (b && false) ≡ false
  other_tier true = refl
  other_tier false = refl

  -- A deletion, at the resolution that it is for.
  row_at-prune_own :
      (p : ℕ) (cut t : ℤ) (mid : ℕ) (rows : List (Row F))
      → row_at (pos p) t mid (prune ag p cut rows) ≡ from_cut cut t (row_at (pos p) t mid rows)
  unfolding from_cut
  row_at-prune_own p cut t mid rows = elim (Bool-cases (ltb_ℤ t cut)) [
    | inl e ↦ rw e (row_at-prune_old p cut t mid rows e)
    | inr e ↦ rw e (row_at-prune ag p cut (pos p) t mid rows (ground arith))
  ]

  -- After the statements of a compaction, a raw row is as it was, down to the cut. A five-minute row at
  -- a multiple of 300 seconds has, of the raw rows of its metric that lie less than 300 seconds from it
  -- on the side away from zero and not before the start of the rollup, the sum of the averages weighed
  -- by the counts, divided by the count of all, the least minimum, the greatest maximum and that count,
  -- or is as it was when there is none. An hourly row has the same, with 3600 seconds, of the
  -- five-minute rows with those that this compaction made. Each resolution has its own cut.
  pub compact_samples-tiers :
      (last now t : ℤ) (mid : ℕ) (rows : List (Row F))
      → let lo5 = rollup_from five_min raw_retention last now in
        let lo60 = rollup_from hour five_min_retention last now in
        let after = compact_samples ag last now rows in
        (row_at (pos raw) t mid after
          ≡ from_cut (now -ℤ pos raw_retention) t (row_at (pos raw) t mid rows))
        × (row_at (pos five_min) t mid after
            ≡ from_cut (now -ℤ pos five_min_retention) t (rolled_up ag five_min raw lo5 mid t rows))
        × (row_at (pos hour) t mid after
            ≡ from_cut
                (now -ℤ pos hour_retention)
                t
                (rolled_up ag hour five_min lo60 mid t (roll_up ag five_min raw lo5 rows)))
  unfolding compact_samples
  compact_samples-tiers last now t mid rows =
      let lo5 = rollup_from five_min raw_retention last now in
      let lo60 = rollup_from hour five_min_retention last now in
      let rows5 = roll_up ag five_min raw lo5 rows in
      let cut = now -ℤ pos raw_retention in
      let cut5 = now -ℤ pos five_min_retention in
      let cut60 = now -ℤ pos hour_retention in
      (
        row_at-prune ag hour cut60 (pos raw) t mid _ refl
            ∙ row_at-prune ag five_min cut5 (pos raw) t mid _ refl
            ∙ row_at-prune_own raw cut t mid _
            ∙ ap (from_cut cut t) (
                row_at-roll_up_from ag hour five_min five_min_retention last now (pos raw) t mid
                  rows5 (omega arith) (other_tier (leb_ℤ lo60 t))
                ∙ row_at-roll_up_from ag five_min raw raw_retention last now (pos raw) t mid rows
                    (omega arith) (other_tier (leb_ℤ lo5 t))),
        row_at-prune ag hour cut60 (pos five_min) t mid _ refl
            ∙ row_at-prune_own five_min cut5 t mid _
            ∙ ap (from_cut cut5 t) (
                row_at-prune ag raw cut (pos five_min) t mid _ refl
                ∙ row_at-roll_up_from ag hour five_min five_min_retention last now (pos five_min) t
                    mid rows5 (omega arith) (other_tier (leb_ℤ lo60 t))
                ∙ roll_up-summary ag five_min raw lo5 mid t rows (omega arith)),
        row_at-prune_own hour cut60 t mid _
            ∙ ap (from_cut cut60 t) (
                row_at-prune ag five_min cut5 (pos hour) t mid _ refl
                ∙ row_at-prune ag raw cut (pos hour) t mid _ refl
                ∙ roll_up-summary ag hour five_min lo60 mid t rows5 (omega arith)),
      )

  unused_row_at :
      (res t : ℤ) (mid : ℕ) (rows : List (Row F))
      → is_used mid rows ≡ false
      → row_at res t mid rows ≡ none
  unfolding row_at is_used has_key
  unused_row_at res t mid [] h = refl
  unused_row_at res t mid (r ∷ rows) h =
      let other : (eq_ℤ r.res res && eq_ℤ r.ts t && r.mid == mid) ≡ false = ground arith in
      rw other (unused_row_at res t mid rows (ground arith))

  -- The names that are dropped have no rows, so that dropping them is not seen.
  find_row-drop_unused :
      (rows : List (Row F)) (t : Tables F) (h : History F) (name : Text) (res ts : ℤ)
      → InOrder t
      → h.tables.metric ≡ drop_unused rows t.metric
      → h.tables.samples ≡ rows
      → find_row h name res ts
        ≡ (elim (id_of name t.metric) [ none ↦ none | some mid ↦ row_at res ts mid rows ])
  unfolding find_row
  find_row-drop_unused rows t h name res ts o m s =
      let e = id_of-drop_unused rows t.metric name o.names in
      elim (Option-cases (id_of name t.metric)) [
        | inl absent ↦ rw (m, s, e, absent)
        | inr (mid, there) ↦ elim (Bool-cases (is_used mid rows)) [
          | inl u ↦ rw (m, s, e, there, u)
          | inr u ↦ rw (m, s, e, there, u) (sym (unused_row_at res ts mid rows u))
        ]
      ]

  -- A value within its retention.
  stat_from :
      (cut t : ℤ) (row : Option (Row F))
      → Option.map stat_of (from_cut cut t row)
        ≡ (if ltb_ℤ t cut then none else Option.map stat_of row)
  unfolding from_cut
  stat_from cut t row = elim (Bool-cases (ltb_ℤ t cut)) [ inl e ↦ rw e | inr e ↦ rw e ]

  if-none : (b : Bool) (x : Option (Stat F)) → x ≡ none → x ≡ (if b then none else x)
  if-none true x h = h
  if-none false x h = refl

  raw_after :
      (last now : ℤ) (h h' : History F) (name : Text) (t : ℤ)
      → InOrder h.tables
      → h'.tables ≡ compact_tables ag last now h.tables
      → content h' name (pos raw) t
        ≡ (if ltb_ℤ t (now -ℤ pos raw_retention) then none else content h name (pos raw) t)
  unfolding content compact_tables
  raw_after last now h h' name t o e =
      let cut = now -ℤ pos raw_retention in
      let rows = compact_samples ag last now h.tables.samples in
      let found =
        find_row-drop_unused rows h.tables h' name (pos raw) t o (ap (λ x. x.metric) e)
          (ap (λ x. x.samples) e) in
      elim (Option-cases (id_of name h.tables.metric)) [
        | inl absent ↦ rw (found, absent) (unfold find_row in if-none (ltb_ℤ t cut) none refl)
        | inr (mid, there) ↦
            rw (found, there)
              (ap (Option.map stat_of) (compact_samples-tiers last now t mid h.tables.samples).0
                ∙ stat_from cut t (row_at (pos raw) t mid h.tables.samples))
      ]

  -- A compaction that succeeds on a store in order keeps the raw values of the last two days, of
  -- every name, and no older ones; it forgets the memo and records its time.
  pub try_compact-raw :
      (run : CompactRun) (now : ℤ) (h : History F)
      → Sound h
      → (try_compact ag run now h).1 ≡ ok tt
      → (name : Text) (t : ℤ)
      → let h' = (try_compact ag run now h).0 in
        (content h' name (pos raw) t
          ≡ (if ltb_ℤ t (now -ℤ pos raw_retention) then none else content h name (pos raw) t))
        × (h'.tables.last_compact ≡ some now)
        × (h'.ids ≡ [])
  unfolding try_compact content reopened
  try_compact-raw run now h s good name t =
      elim (Bool-cases (run.begins && all_execute run && run.commits)) [
        | inr e ↦ let good' = rw e at good in absurd (ground arith)
        | inl e ↦ rw e (
          raw_after (last_of run.reads h.tables.last_compact) now h
              (reopened (compact_tables ag (last_of run.reads h.tables.last_compact) now h.tables))
              name t s.inside refl,
          refl,
          refl,
        )
      ]
