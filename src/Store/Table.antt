-- ===== src/Store/Table.antt =====
-- store.rs: the tables, the interning of metric names, `write` and `series`. SQLite runs the
-- statements; which of them fail, and the id that a new row of `metric` gets, are parameters. A
-- transaction that is dropped without a commit leaves the tables as they were.
pub mod Rows
pub mod Query
pub mod Memo
pub mod Sound
pub mod Content
pub mod Answer
use vm_vitals.Base.{
  ℕ, suc, ◌-◌, ◌^◌, ◌==◌, Bool, true, false, not, ◌&&◌, String, List, [], ◌∷◌, map, Option, none,
  some, is_some, ltb, if◌then◌else◌, take, Text, text_eq, Map, get, insert, Result, ok, err,
}
use vm_vitals.Base.Int.{ℤ, pos, negsuc, leb_ℤ, eq_ℤ}
use vm_vitals.Store.Buckets.{raw}
use vm_vitals.Collect.Cpu.{Float}

-- A row of `samples`.
pub record Row (F : Type 0) : Type 0 where
  pub res : ℤ
  pub ts : ℤ
  pub mid : ℕ
  pub avg : F
  pub min : F
  pub max : F
  pub n : ℕ

-- `last_compact` is the one entry of `meta`.
pub record Tables (F : Type 0) : Type 0 where
  pub metric : List (ℕ × Text)
  pub samples : List (Row F)
  pub last_compact : Option ℤ

-- The store: what the file holds, and the memo of ids.
pub record History (F : Type 0) : Type 0 where
  pub tables : Tables F
  pub ids : Map ℕ

-- Which statements of a write succeed; the k-th of its points is meant.
pub record SqlRun : Type 0 where
  pub begins : Bool
  pub interns : ℕ → Bool
  pub inserts : ℕ → Bool
  pub commits : Bool

-- `Series`: four columns.
pub record Series (F : Type 0) : Type 0 where
  pub t : List ℤ
  pub avg : List F
  pub min : List F
  pub max : List F

-- `SELECT id FROM metric WHERE name=?1`.
unfoldable pub id_of : Text → List (ℕ × Text) → Option ℕ
id_of name [] = none
id_of name ((i, m) ∷ metric) = if text_eq m name then some i else id_of name metric

-- `ts as i64` of a `u64`.
unfoldable pub as_i64 : ℕ → ℤ
as_i64 ts = if ltb ts (2 ^ 63) then pos ts else negsuc (2 ^ 64 - 1 - ts)

module _ {F : Type 0} where
  unfoldable pub same_key : Row F → Row F → Bool
  same_key r s = eq_ℤ r.res s.res && eq_ℤ r.ts s.ts && r.mid == s.mid

  -- `INSERT OR REPLACE INTO samples`, with the primary key (res, ts, mid).
  unfoldable pub replace_row : Row F → List (Row F) → List (Row F)
  unfolding same_key
  replace_row r [] = r ∷ []
  replace_row r (s ∷ rows) = if same_key r s then r ∷ rows else s ∷ replace_row r rows

  -- Rows by time, for `ORDER BY ts`.
  unfoldable pub insert_by_ts : Row F → List (Row F) → List (Row F)
  insert_by_ts r [] = r ∷ []
  insert_by_ts r (s ∷ rows) = if leb_ℤ r.ts s.ts then r ∷ s ∷ rows else s ∷ insert_by_ts r rows

  -- `WHERE mid=?1 AND res=?2 AND ts>=?3 AND ts<=?4 ORDER BY ts`.
  unfoldable pub select_rows : ℕ → ℤ → ℤ → ℤ → List (Row F) → List (Row F)
  unfolding insert_by_ts
  select_rows mid res from to [] = []
  select_rows mid res from to (r ∷ rows) =
      let rest = select_rows mid res from to rows in
      if r.mid == mid && eq_ℤ r.res res && leb_ℤ from r.ts && leb_ℤ r.ts to
      then insert_by_ts r rest
      else rest

  unfoldable pub columns : List (Row F) → Series F
  columns rows = record {
    t = map (λ r. r.ts) rows;
    avg = map (λ r. r.avg) rows;
    min = map (λ r. r.min) rows;
    max = map (λ r. r.max) rows;
  }

  -- An unknown metric is empty, not an error.
  unfoldable pub series : Text → ℤ → ℤ → ℤ → ℕ → History F → Series F
  unfolding select_rows columns
  series metric from to res limit h = elim (id_of metric h.tables.metric) [
    | none ↦ columns []
    | some mid ↦ columns (take limit (select_rows mid res from to h.tables.samples))
  ]

module _ (fl : Float) (rowid : List (ℕ × Text) → ℕ) where
  open fl use {F, is_finite}

  -- `INSERT OR IGNORE INTO metric(name)`: the table, and the id of the name in it.
  unfoldable pub intern : Text → List (ℕ × Text) → List (ℕ × Text) × ℕ
  intern name metric = elim (id_of name metric) [
    | some i ↦ (metric, i)
    | none ↦ ((rowid metric, name) ∷ metric, rowid metric)
  ]

  -- The id, from the memo or the table, and kept in the memo.
  unfoldable pub metric_id : Text → History F → History F × ℕ
  unfolding intern
  metric_id name h = elim (get name h.ids) [
    | some id ↦ (h, id)
    | none ↦
        let (metric, id) = intern name h.tables.metric in
        (record { tables = record h.tables { metric = metric }; ids = insert name id h.ids }, id)
  ]

  unfoldable pub put_sample : ℤ → F → History F × ℕ → History F
  put_sample ts v (h, mid) =
      let row : Row F = record {
        res = pos raw;
        ts = ts;
        mid = mid;
        avg = v;
        min = v;
        max = v;
        n = 1;
      } in
      record h { tables = record h.tables { samples = replace_row row h.tables.samples } }

  -- The loop over the points: the store as the transaction sees it, and whether every statement
  -- succeeded.
  unfoldable pub write_points : SqlRun → ℕ → ℤ → List (Text × F) → History F → History F × Bool
  unfolding metric_id put_sample
  write_points run k ts [] h = (h, true)
  write_points run k ts ((m, v) ∷ points) h =
      let named = metric_id m h in
      let rest = write_points run (suc k) ts points (put_sample ts v named) in
      let skipped = write_points run (suc k) ts points h in
      if not (is_finite v)
      then skipped
      else if not (is_some (get m h.ids)) && not (run.interns k)
      then (h, false)
      else if not (run.inserts k)
      then (named.0, false)
      else rest

  -- The end of the transaction. Without a commit the tables are the old ones, and the memo is not.
  unfoldable pub end_write :
      SqlRun → History F → History F × Bool → History F × Result (Unit {0}) String
  end_write run h (h', good) =
      if good && run.commits
      then (h', ok tt)
      else (record { tables = h.tables; ids = h'.ids }, err "store write failed")

  unfoldable pub try_write :
      SqlRun → ℕ → List (Text × F) → History F → History F × Result (Unit {0}) String
  unfolding write_points end_write
  try_write run ts points h =
      if run.begins
      then end_write run h (write_points run 0 (as_i64 ts) points h)
      else (h, err "begin")
