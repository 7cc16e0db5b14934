-- ===== src/Store/Table/Sound/Write.antt =====
-- store.rs, `write` and `try_write`: a write that succeeds keeps the store in order.
use vm_vitals.Base.{
  suc, ◌≡◌, ◌⊎◌, inl, inr, true, false, not, ◌&&◌, is_some, List, [], ◌∷◌, arith, ℕ, ok, Bool-cases,
  Text, get,
}
use vm_vitals.Base.Int.{ℤ}
use vm_vitals.Collect.Cpu.{Float}
use vm_vitals.Store.Table.{
  History, SqlRun, metric_id, put_sample, write_points, end_write, try_write, as_i64,
}
use vm_vitals.Store.Table.Sound.{IsFresh, Sound, put_sample-Sound}

module _ (fl : Float) (rowid : List (ℕ × Text) → ℕ) where
  open fl use {F, is_finite}

  -- The points of a write that are kept, and the outcome when all its statements succeed.
  pub write_points-ok :
      (run : SqlRun) (k : ℕ) (ts : ℤ) (m : Text) (v : F) (points : List (Text × F)) (h : History F)
      → (write_points fl rowid run k ts ((m, v) ∷ points) h).1 ≡ true
      → ((is_finite v ≡ false)
          × (write_points fl rowid run k ts ((m, v) ∷ points) h
              ≡ write_points fl rowid run (suc k) ts points h))
        ⊎ ((is_finite v ≡ true)
            × (write_points fl rowid run k ts ((m, v) ∷ points) h
                ≡ write_points fl rowid run
                    (suc k)
                    ts
                    points
                    (put_sample fl rowid ts v (metric_id fl rowid m h))))
  unfolding write_points
  write_points-ok run k ts m v points h good = elim (Bool-cases (is_finite v)) [
    | inr f ↦ inl (f, rw f)
    | inl f ↦ elim (Bool-cases (not (is_some (get m h.ids)) && not (run.interns k))) [
      | inl g ↦ let good' = rw (f, g) at good in absurd (ground arith)
      | inr g ↦ elim (Bool-cases (run.inserts k)) [
        | inl w ↦ inr (f, rw (f, g, w))
        | inr w ↦ let good' = rw (f, g, w) at good in absurd (ground arith)
      ]
    ]
  ]

  pub write_points-Sound :
      IsFresh rowid
      → (run : SqlRun) (k : ℕ) (ts : ℤ) (points : List (Text × F)) (h : History F) → Sound h
      → (write_points fl rowid run k ts points h).1 ≡ true
      → Sound (write_points fl rowid run k ts points h).0
  write_points-Sound fresh run k ts [] h s good = unfold write_points in s
  write_points-Sound fresh run k ts ((m, v) ∷ points) h s good =
      elim (write_points-ok run k ts m v points h good) [
        | inl (f, e) ↦ rw e (write_points-Sound fresh run (suc k) ts points h s (rw e at good))
        | inr (f, e) ↦ rw e (
            write_points-Sound fresh run (suc k) ts points _
              (put_sample-Sound fl rowid fresh ts m v h s) (rw e at good))
      ]

  -- A write that succeeds.
  pub try_write-Sound :
      IsFresh rowid
      → (run : SqlRun) (ts : ℕ) (points : List (Text × F)) (h : History F) → Sound h
      → (try_write fl rowid run ts points h).1 ≡ ok tt
      → Sound (try_write fl rowid run ts points h).0
  unfolding try_write end_write
  try_write-Sound fresh run ts points h s good = elim (Bool-cases run.begins) [
    | inr b ↦ let good' = rw b at good in absurd (ground arith)
    | inl b ↦ elim (Bool-cases (write_points fl rowid run 0 (as_i64 ts) points h).1) [
      | inr f ↦ let good' = rw (b, f) at good in absurd (ground arith)
      | inl f ↦ elim (Bool-cases run.commits) [
        | inr d ↦ let good' = rw (b, f, d) at good in absurd (ground arith)
        | inl d ↦ rw (b, f, d) (write_points-Sound fresh run 0 (as_i64 ts) points h s f)
      ]
    ]
  ]
