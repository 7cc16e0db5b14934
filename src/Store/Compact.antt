-- ===== src/Store/Compact.antt =====
-- store.rs, `try_compact`: the statements of a compaction on the rows of `samples`. SQLite sums a
-- group in an order that it chooses; here it is the order of the table.
pub mod Bucket
pub mod Groups
pub mod Older
pub mod Run
use vm_vitals.Base.{
  ℕ, ◌+◌, ◌*◌, ◌/◌, ◌==◌, ◌≡◌, Bool, true, false, not, ◌&&◌, List, [], ◌∷◌, Option, none, some,
  if◌then◌else◌,
}
use vm_vitals.Base.Int.{ℤ, pos, negsuc, pos_part, neg_part, ◌-ℤ◌, leb_ℤ, ltb_ℤ, eq_ℤ}
use vm_vitals.Store.Buckets.{raw, five_min, hour, ceil_bucket}
use vm_vitals.Store.Table.{Row, replace_row}

abbrev pub raw_retention : ℕ
raw_retention = 172800

abbrev pub five_min_retention : ℕ
five_min_retention = 2592000

abbrev pub hour_retention : ℕ
hour_retention = 15552000

unfoldable pub min_ℤ : ℤ → ℤ → ℤ
min_ℤ a b = if leb_ℤ a b then a else b

unfoldable pub max_ℤ : ℤ → ℤ → ℤ
max_ℤ a b = if leb_ℤ a b then b else a

-- `lo5` and `lo60`, by the width of the bucket and the retention of the tier below. `last` is the
-- time of the last compaction, 0 when there was none.
unfoldable pub rollup_from : ℕ → ℕ → ℤ → ℤ → ℤ
unfolding min_ℤ max_ℤ
rollup_from width retention last now =
    ceil_bucket (max_ℤ (min_ℤ last (now -ℤ pos (2 * width))) (now -ℤ pos retention)) width

-- `(ts/?1)*?1`, where the division truncates.
unfoldable pub bucket_of : ℕ → ℤ → ℤ
bucket_of width (pos t) = pos (t / width * width)
bucket_of width (negsuc t) = pos 0 -ℤ pos ((t + 1) / width * width)

-- What a rollup does to numbers.
pub record Aggregate (F : Type 0) : Type 0 where
  pub plus : F → F → F
  pub weigh : F → ℕ → F
  pub divide_by : F → ℕ → F
  pub min_of : F → F → F
  pub max_of : F → F → F

-- A group: `total` is `sum(avg*n)`.
pub record Group (F : Type 0) : Type 0 where
  pub mid : ℕ
  pub ts : ℤ
  pub total : F
  pub min : F
  pub max : F
  pub n : ℕ

module _ {F : Type 0} (ag : Aggregate F) where
  open ag use {plus, weigh, divide_by, min_of, max_of}

  unfoldable pub group_of : ℕ → Row F → Group F
  unfolding bucket_of
  group_of width r = record {
    mid = r.mid;
    ts = bucket_of width r.ts;
    total = weigh r.avg r.n;
    min = r.min;
    max = r.max;
    n = r.n;
  }

  unfoldable pub combine : Group F → Group F → Group F
  combine g s = record {
    mid = s.mid;
    ts = s.ts;
    total = plus s.total g.total;
    min = min_of s.min g.min;
    max = max_of s.max g.max;
    n = s.n + g.n;
  }

  unfoldable pub add_group : Group F → List (Group F) → List (Group F)
  unfolding combine
  add_group g [] = g ∷ []
  add_group g (s ∷ groups) =
      if g.mid == s.mid && eq_ℤ g.ts s.ts then combine g s ∷ groups else s ∷ add_group g groups

  -- `WHERE res=?2 AND ts>=?3 GROUP BY mid, ts/?1`.
  unfoldable pub group_rows : ℕ → ℕ → ℤ → List (Row F) → List (Group F)
  unfolding add_group group_of
  group_rows width source lo [] = []
  group_rows width source lo (r ∷ rows) =
      let rest = group_rows width source lo rows in
      if eq_ℤ r.res (pos source) && leb_ℤ lo r.ts then add_group (group_of width r) rest else rest

  unfoldable pub row_of : ℕ → Group F → Row F
  row_of width g = record {
    res = pos width;
    ts = g.ts;
    mid = g.mid;
    avg = divide_by g.total g.n;
    min = g.min;
    max = g.max;
    n = g.n;
  }

  unfoldable pub replace_groups : ℕ → List (Group F) → List (Row F) → List (Row F)
  unfolding row_of
  replace_groups width [] rows = rows
  replace_groups width (g ∷ groups) rows =
      replace_groups width groups (replace_row (row_of width g) rows)

  -- `INSERT OR REPLACE … SELECT`: the groups are those of the table before the statement.
  unfoldable pub roll_up : ℕ → ℕ → ℤ → List (Row F) → List (Row F)
  unfolding replace_groups group_rows
  roll_up width source lo rows = replace_groups width (group_rows width source lo rows) rows

  -- `DELETE FROM samples WHERE res=?1 AND ts<?2`.
  unfoldable pub prune : ℕ → ℤ → List (Row F) → List (Row F)
  prune res cut [] = []
  prune res cut (r ∷ rows) =
      let rest = prune res cut rows in
      if eq_ℤ r.res (pos res) && ltb_ℤ r.ts cut then rest else r ∷ rest

  -- The five statements on `samples`.
  unfoldable pub compact_samples : ℤ → ℤ → List (Row F) → List (Row F)
  unfolding roll_up prune rollup_from
  compact_samples last now rows =
      let lo5 = rollup_from five_min raw_retention last now in
      let lo60 = rollup_from hour five_min_retention last now in
      prune hour (now -ℤ pos hour_retention) (
        prune five_min (now -ℤ pos five_min_retention) (
          prune raw (now -ℤ pos raw_retention)
            (roll_up hour five_min lo60 (roll_up five_min raw lo5 rows))))
