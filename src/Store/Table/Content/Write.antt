-- ===== src/Store/Table/Content/Write.antt =====
-- store.rs, `try_write` against the specification of a write.
use mathlib.Core.Option
use vm_vitals.Base.{
  ℕ, suc, ◌==◌, ◌≡◌, refl, sym, ◌∙◌, ap, ◌≢◌, inl, inr, Bool, true, false, ◌&&◌, List, [], ◌∷◌,
  none, some, arith, if◌then◌else◌, All, Bool-cases, Option-cases, Text, text_eq, text_eq_iff, ok,
}
use vm_vitals.Base.Int.{ℤ, pos, eq_ℤ}
use vm_vitals.Collect.Cpu.{Float}
use vm_vitals.Store.Buckets.{raw}
use vm_vitals.Store.Table.{
  Row, History, SqlRun, id_of, replace_row, metric_id, put_sample, write_points, end_write,
  try_write, as_i64,
}
use vm_vitals.Store.Table.Rows.{has_key, row_at, row_at-replace_row}
use vm_vitals.Store.Table.Sound.{IsFresh, Sound, Interned, metric_id-Interned, put_sample-Sound}
use vm_vitals.Store.Table.Sound.Write.{write_points-ok}
use vm_vitals.Store.Table.Content.{Contents, stat_of, find_row, content, put_point, put_points}

module _ (fl : Float) where
  open fl use {F, is_finite}

  -- It looks at the old contents at the place that is asked for only.
  put_points_local :
      (ts : ℤ) (points : List (Text × F)) (f g : Contents F) (name : Text) (res t : ℤ)
      → f name res t ≡ g name res t
      → put_points fl ts points f name res t ≡ put_points fl ts points g name res t
  unfolding put_points
  put_points_local ts [] f g name res t h = h
  put_points_local ts ((m, v) ∷ points) f g name res t h = elim (Bool-cases (is_finite v)) [
    | inl e ↦ rw e (
        put_points_local ts points (put_point fl ts m v f) (put_point fl ts m v g) name res t
          (rw h))
    | inr e ↦ rw e (put_points_local ts points f g name res t h)
  ]

  has_key_other_mid :
      (res ts : ℤ) (i : ℕ) (r : Row F) → (r.mid == i) ≡ false → has_key res ts i r ≡ false
  unfolding has_key
  has_key_other_mid res ts i r h = ground arith

  row_at_absent :
      (res ts : ℤ) (i : ℕ) (metric : List (ℕ × Text)) (rows : List (Row F))
      → ((name : Text) → id_of name metric ≢ some i)
      → All (λ r. (name : Text) × (id_of name metric ≡ some r.mid)) rows
      → row_at res ts i rows ≡ none
  unfolding row_at has_key
  row_at_absent res ts i metric [] new all = refl
  row_at_absent res ts i metric (r ∷ rows) new all =
      let (name, e) = all.0 in
      let other : (r.mid == i) ≡ false = elim (Bool-cases (r.mid == i)) [
        | inr d ↦ d
        | inl d ↦ let m : r.mid ≡ i = ground arith in absurd (new name (e ∙ ap some m))
      ] in
      rw (has_key_other_mid res ts i r other) (row_at_absent res ts i metric rows new all.1)

  abbrev raw_row : ℤ → F → ℕ → Row F
  raw_row ts v mid = record { res = pos raw; ts = ts; mid = mid; avg = v; min = v; max = v; n = 1 }

  eq_self : (i : ℕ) → (i == i) ≡ true
  eq_self i = ground arith

  &&-assoc : (a b d : Bool) → (a && b && d) ≡ ((a && b) && d)
  &&-assoc true b d = refl
  &&-assoc false b d = refl

  &&_false : (a : Bool) → (a && false) ≡ false
  &&_false true = refl
  &&_false false = refl

  module _ (rowid : List (ℕ × Text) → ℕ) (fresh : IsFresh rowid) where
    -- The row that a write puts, looked up by a metric id.
    row_at-raw :
        (ts : ℤ) (v : F) (i j : ℕ) (res t : ℤ) (rows : List (Row F))
        → row_at res t j (replace_row (raw_row ts v i) rows) ≡ (
            if (eq_ℤ (pos raw) res && eq_ℤ ts t) && i == j
            then some (raw_row ts v i)
            else row_at res t j rows)
    unfolding has_key
    row_at-raw ts v i j res t rows =
        row_at-replace_row res t j (raw_row ts v i) rows
        ∙ rw (&&-assoc (eq_ℤ (pos raw) res) (eq_ℤ ts t) (i == j))

    ids_differ :
        (m : Text) (h h' : History F) (i : ℕ) (name : Text) (j : ℕ)
        → Sound h
        → Interned fl rowid m h h' i
        → text_eq m name ≡ false
        → id_of name h.tables.metric ≡ some j
        → (i == j) ≡ false
    ids_differ m h h' i name j s int other e = elim (Bool-cases (i == j)) [
      | inr d ↦ d
      | inl d ↦
          let same : i ≡ j = ground arith in
          elim int.known [
            | inl k ↦
                let one : m ≡ name = s.inside.injective m name j (k ∙ ap some same) e in
                ground (arith, text_eq_iff m name)
            | inr (absent, new) ↦ absurd (fresh h.tables.metric name (e ∙ ap some (sym same ∙ new)))
          ]
    ]

    -- Under the id that the name got, there is what the name had.
    row_at-known :
        (m : Text) (h h' : History F) (i : ℕ) (res t : ℤ)
        → Sound h
        → Interned fl rowid m h h' i
        → row_at res t i h.tables.samples ≡ find_row h m res t
    unfolding find_row
    row_at-known m h h' i res t s int = elim int.known [
      | inl k ↦ rw k
      | inr (absent, new) ↦ rw absent (
          row_at_absent res t i h.tables.metric h.tables.samples
            (λ name e. fresh h.tables.metric name (e ∙ ap some new)) s.inside.named)
    ]

    put-content :
        (ts : ℤ) (m : Text) (v : F) (h h' : History F) (i : ℕ) (name : Text) (res t : ℤ)
        → Sound h
        → Interned fl rowid m h h' i
        → content (put_sample fl rowid ts v (h', i)) name res t
          ≡ put_point fl ts m v (content h) name res t
    unfolding put_point content find_row put_sample
    put-content ts m v h h' i name res t s int =
        let here = eq_ℤ (pos raw) res && eq_ℤ ts t in
        elim (Bool-cases (text_eq m name)) [
          | inl same ↦
              let one : m ≡ name = ground (arith, text_eq_iff m name) in
              elim (Bool-cases (eq_ℤ (pos raw) res && eq_ℤ ts t)) [
                | inl k ↦ rw (
                  int.others name,
                  same,
                  int.samples,
                  row_at-raw ts v i i res t h.tables.samples,
                  k,
                  eq_self i,
                )
                | inr k ↦
                    rw
                      (
                        int.others name,
                        same,
                        int.samples,
                        row_at-raw ts v i i res t h.tables.samples,
                        k,
                        ← one,
                      )
                      (ap (Option.map stat_of) (row_at-known m h h' i res t s int))
              ]
          | inr other ↦ elim (Option-cases (id_of name h.tables.metric)) [
            | inl none_yet ↦ rw (int.others name, other, none_yet)
            | inr (j, e) ↦ rw (
              int.others name,
              other,
              e,
              int.samples,
              row_at-raw ts v i j res t h.tables.samples,
              ids_differ m h h' i name j s int other e,
              &&_false here,
            )
          ]
        ]

    write_points-content :
        (run : SqlRun) (k : ℕ) (ts : ℤ) (points : List (Text × F)) (h : History F) (name : Text)
        (res t : ℤ)
        → Sound h
        → (write_points fl rowid run k ts points h).1 ≡ true
        → content (write_points fl rowid run k ts points h).0 name res t
          ≡ put_points fl ts points (content h) name res t
    unfolding put_points
    write_points-content run k ts [] h name res t s good = unfold write_points in refl
    write_points-content run k ts ((m, v) ∷ points) h name res t s good =
        elim (write_points-ok fl rowid run k ts m v points h good) [
          | inl (f, e) ↦
              rw (e, f) (write_points-content run (suc k) ts points h name res t s (rw e at good))
          | inr (f, e) ↦
              let h' = put_sample fl rowid ts v (metric_id fl rowid m h) in
              let rest =
                write_points-content run (suc k) ts points h' name res t
                  (put_sample-Sound fl rowid fresh ts m v h s) (rw e at good) in
              let step =
                put-content ts m v h (metric_id fl rowid m h).0 (metric_id fl rowid m h).1 name res
                  t s (metric_id-Interned fl rowid m h s) in
              rw (e, f)
                (rest
                  ∙ put_points_local ts points (content h') (put_point fl ts m v (content h)) name
                      res t step)
        ]

    -- Where SQLite gives fresh ids: a write that succeeds on a store in order does to the contents
    -- what its specification says, each finite point, in order, at the raw resolution and the time
    -- of the write, and nothing else changes.
    pub try_write-content :
        (run : SqlRun) (ts : ℕ) (points : List (Text × F)) (h : History F)
        → Sound h
        → (try_write fl rowid run ts points h).1 ≡ ok tt
        → (name : Text) (res t : ℤ)
        → content (try_write fl rowid run ts points h).0 name res t
          ≡ put_points fl (as_i64 ts) points (content h) name res t
    unfolding try_write end_write
    try_write-content run ts points h s good name res t = elim (Bool-cases run.begins) [
      | inr b ↦ let good' = rw b at good in absurd (ground arith)
      | inl b ↦ elim (Bool-cases (write_points fl rowid run 0 (as_i64 ts) points h).1) [
        | inr f ↦ let good' = rw (b, f) at good in absurd (ground arith)
        | inl f ↦ elim (Bool-cases run.commits) [
          | inr d ↦ let good' = rw (b, f, d) at good in absurd (ground arith)
          | inl d ↦ rw (b, f, d) (write_points-content run 0 (as_i64 ts) points h name res t s f)
        ]
      ]
    ]
