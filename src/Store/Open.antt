-- ===== src/Store/Open.antt =====
-- store.rs, `Store::open` and `migrate`: a file of another schema is rebuilt, one of this schema is
-- kept. The statements are not in one transaction, so that a failure can come between any two.
pub mod Resumes
use vm_vitals.Base.{
  ℕ, Bool, true, false, not, ◌&&◌, ◌||◌, List, [], ◌∷◌, ◌++◌, Option, none, some, if◌then◌else◌,
  take, Text, String, Result, ok, err,
}
use vm_vitals.Base.Int.{ℤ, pos, eq_ℤ}
use vm_vitals.Store.Table.{Row, Tables, History}

abbrev pub schema_version : ℕ
schema_version = 1

-- A table of the file: there is none, or it has the columns of this schema, or those of another.
pub data SqlTable (A : Type 0) : Type 0 where
  absent : SqlTable A
  present : A → SqlTable A
  foreign : SqlTable A

-- The file, with its `user_version`. `last_compact` is the entry of `meta`, none also where that table
-- is not there yet.
pub record File (F : Type 0) : Type 0 where
  pub user_version : ℤ
  pub metric : SqlTable (List (ℕ × Text))
  pub samples : SqlTable (List (Row F))
  pub last_compact : Option ℤ

unfoldable pub is_there : {A : Type 0} → SqlTable A → Bool
is_there absent = false
is_there (present a) = true
is_there foreign = true

-- `CREATE TABLE IF NOT EXISTS`.
unfoldable pub create : {A : Type 0} → SqlTable (List A) → SqlTable (List A)
create absent = present []
create (present a) = present a
create foreign = foreign

-- The statements that `migrate` executes. The index changes no answer, and `meta` without an entry
-- reads like no `meta`, so that both leave the file as it is here.
pub data Statement : Type 0 where
  drop_samples drop_metric create_metric create_samples create_index create_meta : Statement
  set_version : Statement

-- The rows of a table that a statement can read.
abbrev rows_of : {A : Type 0} → SqlTable (List A) → List A
rows_of absent = []
rows_of (present rows) = rows
rows_of foreign = []

-- What the opening of the store meets: the connection that writes and its configuration, `migrate`,
-- which may fail after some of its statements, and the connection that reads.
pub record Opening : Type 0 where
  pub writes : Result (Unit {0}) String
  pub migrates : Option (ℕ × String)
  pub reads : Result (Unit {0}) String

module _ {F : Type 0} where
  unfoldable pub execute : Statement → File F → File F
  unfolding create
  execute drop_samples f = record f { samples = absent }
  execute drop_metric f = record f { metric = absent }
  execute create_metric f = record f { metric = create f.metric }
  execute create_samples f = record f { samples = create f.samples }
  execute create_index f = f
  execute create_meta f = f
  execute set_version f = record f { user_version = pos schema_version }

  unfoldable pub execute_all : List Statement → File F → File F
  unfolding execute
  execute_all [] f = f
  execute_all (s ∷ statements) f = execute_all statements (execute s f)

  -- `has_tables && version != SCHEMA_VERSION`.
  unfoldable pub is_outdated : File F → Bool
  unfolding is_there
  is_outdated f =
      (is_there f.samples || is_there f.metric) && not (eq_ℤ f.user_version (pos schema_version))

  -- What `migrate` executes on a file.
  unfoldable pub statements_of : File F → List Statement
  unfolding is_outdated
  statements_of f =
      (if is_outdated f then drop_samples ∷ drop_metric ∷ [] else [])
      ++ (create_metric ∷ create_samples ∷ create_index ∷ create_meta ∷ set_version ∷ [])

  unfoldable pub migrate : File F → File F
  unfolding execute_all statements_of
  migrate f = execute_all (statements_of f) f

  -- A `migrate` that fails, or whose process ends, after some of its statements.
  unfoldable pub migrate_until : ℕ → File F → File F
  unfolding execute_all statements_of
  migrate_until n f = execute_all (take n (statements_of f)) f

  -- What the statements read of a file.
  unfoldable pub tables_of : File F → Tables F
  tables_of f = record {
    metric = rows_of f.metric;
    samples = rows_of f.samples;
    last_compact = f.last_compact;
  }

  after_migrate : Result (Unit {0}) String → File F → Result (Tables F) String
  unfolding tables_of
  after_migrate (ok u) f = ok (tables_of f)
  after_migrate (err e) f = err e

  migrate_and_read : Opening → Result (Unit {0}) String → File F → File F × Result (Tables F) String
  unfolding migrate migrate_until after_migrate
  migrate_and_read o (err e) f = (f, err e)
  migrate_and_read o (ok u) f = elim o.migrates [
    | none ↦ (migrate f, after_migrate o.reads (migrate f))
    | some (n, e) ↦ (migrate_until n f, err e)
  ]

  -- `Store::open`: the file, and its tables.
  unfoldable pub open_store : Opening → File F → File F × Result (Tables F) String
  unfolding migrate_and_read
  open_store o f = migrate_and_read o o.writes f
