-- ===== src/Store/Table/Memo.antt =====
-- store.rs, `metric_id` and `try_write`: the memo of ids against the table.
use vm_vitals.Base.{
  ℕ, ◌≡◌, true, false, List, [], ◌∷◌, none, some, arith, Text, text_eq_iff, suc, not, ◌&&◌, is_some,
  Bool-cases, Option-cases, inl, inr, get-insert, get, insert, get-insert_self, ok,
}
use vm_vitals.Base.Int.{ℤ}
use vm_vitals.Collect.Cpu.{Float}
use vm_vitals.Store.Table.{
  History, SqlRun, id_of, series, columns, metric_id, intern, put_sample, write_points, end_write,
  try_write, as_i64,
}

module _ (fl : Float) (rowid : List (ℕ × Text) → ℕ) where
  open fl use {F, is_finite}

  pub metric_id_new :
      (m : Text) (h : History F)
      → id_of m h.tables.metric ≡ none
      → get m h.ids ≡ none
      → metric_id fl rowid m h ≡ (
        record {
          tables = record h.tables { metric = (rowid h.tables.metric, m) ∷ h.tables.metric };
          ids = insert m (rowid h.tables.metric) h.ids;
        },
        rowid h.tables.metric,
      )
  unfolding metric_id intern
  metric_id_new m h absent fresh = rw (fresh, metric_id, absent, intern)

  pub metric_id_there :
      (m : Text) (h : History F) (i : ℕ)
      → id_of m h.tables.metric ≡ some i
      → get m h.ids ≡ none
      → metric_id fl rowid m h ≡ (record { tables = h.tables; ids = insert m i h.ids }, i)
  unfolding metric_id intern
  metric_id_there m h i there fresh = rw (fresh, metric_id, there, intern)

  pub metric_id_known :
      (m : Text) (h : History F) (i : ℕ) → get m h.ids ≡ some i → metric_id fl rowid m h ≡ (h, i)
  unfolding metric_id
  metric_id_known m h i known = rw (known, metric_id)

  -- The first write of a metric is interned, fails at its insertion, and is rolled back.
  failed_write :
      (run : SqlRun) (ts : ℕ) (m : Text) (v : F) (h : History F)
      → run.begins ≡ true
      → run.interns 0 ≡ true
      → run.inserts 0 ≡ false
      → is_finite v ≡ true
      → id_of m h.tables.metric ≡ none
      → get m h.ids ≡ none
      → (try_write fl rowid run ts ((m, v) ∷ []) h).0
        ≡ record { tables = h.tables; ids = insert m (rowid h.tables.metric) h.ids }
  unfolding try_write write_points end_write
  failed_write run ts m v h b i f fin absent fresh =
      rw (b, fin, metric_id_new m h absent fresh, fresh, i, f)

  -- A later write takes the id from the memo, and does not touch the names.
  later_write :
      (run : SqlRun) (ts : ℕ) (m : Text) (v : F) (i : ℕ) (h : History F)
      → run.begins ≡ true
      → run.inserts 0 ≡ true
      → run.commits ≡ true
      → is_finite v ≡ true
      → get m h.ids ≡ some i
      → ((try_write fl rowid run ts ((m, v) ∷ []) h).1 ≡ ok tt)
        × ((try_write fl rowid run ts ((m, v) ∷ []) h).0.tables.metric ≡ h.tables.metric)
  unfolding try_write write_points end_write put_sample
  later_write run ts m v i h b f d fin known = (
    rw (b, fin, metric_id_known m h i known, known, f, d),
    rw (b, fin, metric_id_known m h i known, known, f, d),
  )

  series_unknown :
      (m : Text) (from to res : ℤ) (limit : ℕ) (h : History F)
      → id_of m h.tables.metric ≡ none
      → series m from to res limit h ≡ columns []
  unfolding series
  series_unknown m from to res limit h e = rw (e, series)

  -- The first write of a metric fails at its insertion and is rolled back; then a second write of that
  -- metric succeeds, and still no query finds a point of it.
  pub try_write_lost :
      (run run' : SqlRun) (ts ts' : ℕ) (m : Text) (v v' : F) (h : History F)
      → run.begins ≡ true
      → run.interns 0 ≡ true
      → run.inserts 0 ≡ false
      → run'.begins ≡ true
      → run'.inserts 0 ≡ true
      → run'.commits ≡ true
      → is_finite v ≡ true
      → is_finite v' ≡ true
      → id_of m h.tables.metric ≡ none
      → get m h.ids ≡ none
      → (from to res : ℤ) (limit : ℕ)
      → let again =
          try_write fl rowid run' ts'
            ((m, v') ∷ [])
            (try_write fl rowid run ts ((m, v) ∷ []) h).0 in
        (again.1 ≡ ok tt) × (series m from to res limit again.0 ≡ columns [])
  try_write_lost run run' ts ts' m v v' h b i f b' f' d' fin fin' absent fresh from to res limit =
      let e = failed_write run ts m v h b i f fin absent fresh in
      let id = rowid h.tables.metric in
      let (good, names) =
        later_write run' ts' m v' id (record { tables = h.tables; ids = insert m id h.ids }) b' f'
          d' fin' (get-insert_self m id h.ids) in
      (rw e good, series_unknown m from to res limit _ (rw (e, names) absent))

  -- The memo agrees with the table.
  pub record IsMemoSound (h : History F) : Type 0 where
    pub agrees :
        (name : Text) (i : ℕ) → get name h.ids ≡ some i → id_of name h.tables.metric ≡ some i

  metric_id-IsMemoSound :
      (m : Text) (h : History F) → IsMemoSound h → IsMemoSound (metric_id fl rowid m h).0
  unfolding id_of
  metric_id-IsMemoSound m h sound = elim (Option-cases (get m h.ids)) [
    | inr (i, known) ↦ rw (metric_id_known m h i known) sound
    | inl fresh ↦ elim (Option-cases (id_of m h.tables.metric)) [
      | inl absent ↦ rw (metric_id_new m h absent fresh) (record {
        agrees = λ name i g. ground (
          arith,
          get-insert m name (rowid h.tables.metric) h.ids,
          text_eq_iff m name,
          sound.agrees name i,
        );
      })
      | inr (j, there) ↦ rw (metric_id_there m h j there fresh) (record {
        agrees = λ name i g.
            ground (arith, get-insert m name j h.ids, text_eq_iff m name, sound.agrees name i);
      })
    ]
  ]

  write_points-IsMemoSound :
      (run : SqlRun) (k : ℕ) (ts : ℤ) (points : List (Text × F)) (h : History F)
      → IsMemoSound h
      → IsMemoSound (write_points fl rowid run k ts points h).0
  unfolding write_points put_sample
  write_points-IsMemoSound run k ts [] h sound = sound
  write_points-IsMemoSound run k ts ((m, v) ∷ points) h sound =
      let named = metric_id fl rowid m h in
      let interned = metric_id-IsMemoSound m h sound in
      let skipped = write_points-IsMemoSound run (suc k) ts points h sound in
      let rest =
        write_points-IsMemoSound run (suc k) ts points (put_sample fl rowid ts v named)
          (record { agrees = interned.agrees }) in
      elim (Bool-cases (is_finite v)) [
        | inr f ↦ rw f skipped
        | inl f ↦ elim (Bool-cases (not (is_some (get m h.ids)) && not (run.interns k))) [
          | inl g ↦ rw (f, g) sound
          | inr g ↦ elim (Bool-cases (run.inserts k)) [
            | inl w ↦ rw (f, g, w) rest
            | inr w ↦ rw (f, g, w) interned
          ]
        ]
      ]

  -- A write that succeeds, whatever its points, keeps the memo in agreement with the table.
  pub try_write-IsMemoSound :
      (run : SqlRun) (ts : ℕ) (points : List (Text × F)) (h : History F)
      → IsMemoSound h
      → (try_write fl rowid run ts points h).1 ≡ ok tt
      → IsMemoSound (try_write fl rowid run ts points h).0
  unfolding try_write end_write
  try_write-IsMemoSound run ts points h sound good =
      let inside = write_points-IsMemoSound run 0 (as_i64 ts) points h sound in
      elim (Bool-cases run.begins) [
        | inr b ↦ rw b sound
        | inl b ↦
            elim (Bool-cases
              ((write_points fl rowid run 0 (as_i64 ts) points h).1 && run.commits)) [
                | inl d ↦ rw (b, d) inside
                | inr d ↦ let good' = rw (b, d) at good in absurd (ground arith)
              ]
      ]
