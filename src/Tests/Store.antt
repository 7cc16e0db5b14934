-- ===== src/Tests/Store.antt =====
-- The history of the store through writes and compactions.
use vm_vitals.Base.{
  ℕ, suc, ◌≤◌, ◌≡◌, refl, inl, inr, true, List, [], ◌∷◌, none, some, arith, max, Bool-cases, Text,
  text_eq, get, insert, remove, ok,
}
use vm_vitals.Base.Int.{pos, ◌-ℤ◌}
use vm_vitals.Store.Buckets.{raw, five_min, hour}
use vm_vitals.Store.Table.{
  History, id_of, as_i64, metric_id, intern, put_sample, write_points, end_write, try_write,
}
use vm_vitals.Store.Table.Rows.{row_at}
use vm_vitals.Store.Table.Sound.{IsFresh, Sound}
use vm_vitals.Store.Table.Content.{content, put_points}
use vm_vitals.Store.Table.Content.Write.{try_write-content}
use vm_vitals.Store.Compact.{
  roll_up, rollup_from, compact_samples, raw_retention, five_min_retention, hour_retention,
}
use vm_vitals.Store.Compact.Groups.{rolled_up}
use vm_vitals.Store.Compact.Run.{CompactRun, all_execute, try_compact}
use vm_vitals.Store.Compact.Run.Reach.{
  Reach, reopened, empty_tables, created, wrote, compacted, Reach-Sound,
}
use vm_vitals.Store.Compact.Run.Tiers.{from_cut, compact_samples-tiers}
use vm_vitals.Store.Open.{File, foreign, migrate, migrate_until}
use vm_vitals.Store.Open.Resumes.{migrated, migrate-resumes}
use vm_vitals.Tests.Surface.{whole}
use vm_vitals.Tests.Tables.{smooth, cpu, two_points, counts, old_rows}

-- The largest id, and one more: what SQLite takes for a new row.
abbrev pub largest : List (ℕ × Text) → ℕ
largest [] = 0
largest ((i, name) ∷ metric) = max i (largest metric)

abbrev pub fresh_id : List (ℕ × Text) → ℕ
fresh_id metric = suc (largest metric)

largest-le :
    (metric : List (ℕ × Text)) (name : Text) (i : ℕ)
    → id_of name metric ≡ some i
    → i ≤ largest metric
unfolding id_of
largest-le [] name i h = absurd (ground arith)
largest-le ((j, m) ∷ metric) name i h = elim (Bool-cases (text_eq m name)) [
  | inl e ↦ let h' = rw e at h in let same : j ≡ i = ground arith in omega (arith, same)
  | inr e ↦ let rest = largest-le metric name i (rw e at h) in omega (arith, rest)
]

pub fresh_id-IsFresh : IsFresh fresh_id
fresh_id-IsFresh metric name h = let bound = largest-le metric name _ h in omega (arith, bound)

abbrev pub opened : History ℕ
opened = record { tables = record { metric = []; samples = []; last_compact = none }; ids = [] }

pub opened-Reach : Reach whole fresh_id counts true opened
unfolding reopened empty_tables
opened-Reach = created

pub opened-Sound : Sound opened
opened-Sound = Reach-Sound whole fresh_id counts fresh_id-IsFresh opened-Reach

abbrev pub written : History ℕ
written = (try_write whole fresh_id smooth 30 two_points opened).0

written-ok : (try_write whole fresh_id smooth 30 two_points opened).1 ≡ ok tt
unfolding try_write write_points end_write metric_id get intern id_of put_sample insert text_eq
    remove
written-ok = refl

written-Reach : Reach whole fresh_id counts true written
written-Reach = wrote smooth 30 two_points opened-Reach written-ok

abbrev pub whole_run : CompactRun
whole_run = record { reads = true; begins = true; executes = λ k. true; commits = true }

compacts : (try_compact counts whole_run (pos 400) written).1 ≡ ok tt
unfolding try_compact all_execute
compacts = refl

-- A write and a compaction.
Reach-Sound_example : Sound (try_compact counts whole_run (pos 400) written).0
Reach-Sound_example =
    Reach-Sound whole fresh_id counts fresh_id-IsFresh
      (compacted whole_run (pos 400) written-Reach compacts)

pub written-Sound : Sound written
written-Sound = Reach-Sound whole fresh_id counts fresh_id-IsFresh written-Reach

try_write-content_example :
    content written cpu (pos raw) (pos 30)
    ≡ put_points whole (as_i64 30) two_points (content opened) cpu (pos raw) (pos 30)
try_write-content_example =
    try_write-content whole fresh_id fresh_id-IsFresh smooth 30 two_points opened opened-Sound
      written-ok cpu (pos raw) (pos 30)

compact_samples-tiers_example :
    let lo5 = rollup_from five_min raw_retention (pos 400000) (pos 400000) in
    let lo60 = rollup_from hour five_min_retention (pos 400000) (pos 400000) in
    let after = compact_samples counts (pos 400000) (pos 400000) old_rows in
    (row_at (pos raw) (pos 399600) 1 after
      ≡ from_cut
          (pos 400000 -ℤ pos raw_retention)
          (pos 399600)
          (row_at (pos raw) (pos 399600) 1 old_rows))
    × (row_at (pos five_min) (pos 399600) 1 after
        ≡ from_cut
            (pos 400000 -ℤ pos five_min_retention)
            (pos 399600)
            (rolled_up counts five_min raw lo5 1 (pos 399600) old_rows))
    × (row_at (pos hour) (pos 399600) 1 after
        ≡ from_cut (pos 400000 -ℤ pos hour_retention) (pos 399600) (
            rolled_up counts hour five_min lo60 1
              (pos 399600)
              (roll_up counts five_min raw lo5 old_rows)))
compact_samples-tiers_example =
    compact_samples-tiers counts (pos 400000) (pos 400000) (pos 399600) 1 old_rows

-- A file of an older schema, with a history that is not read.
abbrev old_file : File ℕ
old_file = record {
  user_version = pos 0;
  metric = foreign;
  samples = foreign;
  last_compact = some (pos 100);
}

migrate-resumes_example :
    (migrate old_file ≡ migrated old_file)
    × (migrate (migrate_until 3 old_file) ≡ migrated old_file)
migrate-resumes_example = migrate-resumes 3 old_file
