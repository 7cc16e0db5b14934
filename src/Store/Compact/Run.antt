-- ===== src/Store/Compact/Run.antt =====
-- store.rs, `try_compact` as a whole: the time of the last compaction, the transaction, the names that
-- it drops, and the memo. SQLite says which statements succeed; a transaction that is dropped without a
-- commit leaves the tables as they were.
pub mod Names
pub mod Keeps
pub mod Reach
pub mod Tiers
use vm_vitals.Base.{
  ℕ, ◌==◌, Bool, true, false, ◌&&◌, ◌||◌, String, List, [], ◌∷◌, Option, none, some, if◌then◌else◌,
  Text, Result, ok, err,
}
use vm_vitals.Base.Int.{ℤ, pos}
use vm_vitals.Store.Table.{Row, Tables, History}
use vm_vitals.Store.Compact.{Aggregate, compact_samples}

-- What SQLite says in a compaction: to the query of `last_compact`, to each of the seven statements,
-- and to the commit.
pub record CompactRun : Type 0 where
  pub reads : Bool
  pub begins : Bool
  pub executes : ℕ → Bool
  pub commits : Bool

unfoldable pub all_execute : CompactRun → Bool
all_execute run =
    run.executes 0
    && run.executes 1
    && run.executes 2
    && run.executes 3
    && run.executes 4
    && run.executes 5
    && run.executes 6

-- `unwrap_or(0)`: no entry and a query that fails are the same.
unfoldable pub last_of : Bool → Option ℤ → ℤ
last_of true (some t) = t
last_of true none = pos 0
last_of false last = pos 0

module _ {F : Type 0} where
  -- `id IN (SELECT DISTINCT mid FROM samples)`.
  unfoldable pub is_used : ℕ → List (Row F) → Bool
  is_used i [] = false
  is_used i (r ∷ rows) = r.mid == i || is_used i rows

  -- `DELETE FROM metric WHERE id NOT IN …`.
  unfoldable pub drop_unused : List (Row F) → List (ℕ × Text) → List (ℕ × Text)
  drop_unused rows [] = []
  drop_unused rows ((i, name) ∷ metric) =
      let rest = drop_unused rows metric in if is_used i rows then (i, name) ∷ rest else rest

module _ {F : Type 0} (ag : Aggregate F) where
  -- The seven statements, one after the other.
  unfoldable pub compact_tables : ℤ → ℤ → Tables F → Tables F
  unfolding drop_unused compact_samples
  compact_tables last now t =
      let rows = compact_samples ag last now t.samples in
      record { metric = drop_unused rows t.metric; samples = rows; last_compact = some now }

  unfoldable pub try_compact : CompactRun → ℤ → History F → History F × Result (Unit {0}) String
  unfolding compact_tables last_of all_execute
  try_compact run now h =
      if run.begins && all_execute run && run.commits
      then (
        record {
          tables = compact_tables (last_of run.reads h.tables.last_compact) now h.tables;
          ids = [];
        },
        ok tt,
      )
      else (h, err "store compact")
