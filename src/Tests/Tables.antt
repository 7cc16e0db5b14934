-- ===== src/Tests/Tables.antt =====
-- The tables of the history.
use Prim.Native.Nat.{◌+◌, ◌*◌, ◌/◌, min, max}
use vm_vitals.Store.Table.{Row}
use vm_vitals.Store.Compact.{Aggregate}
use vm_vitals.Base.{
  ℕ, suc, ◌≡◌, refl, true, false, List, [], ◌∷◌, none, Text, codes, get, insert, remove, text_eq,
  length, ok,
}
use vm_vitals.Base.Int.{pos}
use vm_vitals.Store.Table.{
  History, SqlRun, id_of, as_i64, series, columns, metric_id, intern, put_sample, replace_row,
  write_points, end_write, try_write,
}
use vm_vitals.Store.Table.Memo.{try_write_lost}
use vm_vitals.Tests.Surface.{whole}

-- The next id of a table from which nothing was deleted.
abbrev next_id : List (ℕ × Text) → ℕ
next_id metric = suc (length metric)

abbrev pub smooth : SqlRun
smooth = record { begins = true; interns = λ k. true; inserts = λ k. true; commits = true }

abbrev full_disk : SqlRun
full_disk = record { begins = true; interns = λ k. true; inserts = λ k. false; commits = true }

abbrev no_history : History ℕ
no_history = record { tables = record { metric = []; samples = []; last_compact = none }; ids = [] }

abbrev pub cpu : Text
cpu = codes "host.cpu"

abbrev pub two_points : List (Text × ℕ)
two_points = (cpu, 3) ∷ (codes "host.mem", 4) ∷ []

writes_two : (try_write whole next_id smooth 30 two_points no_history).1 ≡ ok tt
unfolding try_write write_points end_write metric_id get intern id_of put_sample insert text_eq
    remove
writes_two = refl

reads_back :
    series cpu
      (pos 0)
      (pos 60)
      (pos 15)
      10
      (try_write whole next_id smooth 30 two_points no_history).0
    ≡ record { t = pos 30 ∷ []; avg = 3 ∷ []; min = 3 ∷ []; max = 3 ∷ [] }
unfolding try_write write_points end_write metric_id get intern id_of put_sample replace_row series
    as_i64 insert text_eq remove
reads_back = refl

try_write_lost_example :
    let again =
      try_write whole next_id smooth 45
        ((cpu, 4) ∷ [])
        (try_write whole next_id full_disk 30 ((cpu, 3) ∷ []) no_history).0 in
    (again.1 ≡ ok tt) × (series cpu (pos 0) (pos 60) (pos 15) 10 again.0 ≡ columns [])
unfolding id_of get
try_write_lost_example =
    try_write_lost whole next_id full_disk smooth 30 45 cpu 3 4 no_history refl refl refl refl refl
      refl refl refl refl refl (pos 0) (pos 60) (pos 15) 10

-- Whole numbers, averaged by division.
abbrev pub counts : Aggregate ℕ
counts = record {
  plus = λ a b. a + b;
  weigh = λ a n. a * n;
  divide_by = λ a n. a / n;
  min_of = λ a b. min a b;
  max_of = λ a b. max a b;
}

abbrev pub sample : ℕ → ℕ → ℕ → Row ℕ
sample res ts v = record { res = pos res; ts = pos ts; mid = 1; avg = v; min = v; max = v; n = 1 }

-- A five-minute row whose raw samples are gone but for the last, and two new raw samples.
abbrev pub old_rows : List (Row ℕ)
old_rows = sample 300 399300 9 ∷ sample 15 399585 1 ∷ sample 15 399600 4 ∷ sample 15 399630 6 ∷ []
