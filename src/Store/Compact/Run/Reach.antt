-- ===== src/Store/Compact/Run/Reach.antt =====
-- store.rs: the store through any run of writes, compactions and restarts of the daemon. After a write
-- that failed the memo may name ids that were rolled back, so a run is followed only up to the next
-- compaction or restart; what a write in between does is shown by `try_write_lost`.
use vm_vitals.Base.{
  ℕ, ◌≡◌, refl, Bool, true, false, ◌&&◌, String, List, [], none, some, arith, Bool-cases, inl, inr,
  Text, get, ok, err,
}
use vm_vitals.Base.Int.{ℤ}
use vm_vitals.Collect.Cpu.{Float}
use vm_vitals.Store.Table.{
  Tables, History, SqlRun, id_of, write_points, end_write, try_write, as_i64,
}
use vm_vitals.Store.Table.Sound.{IsFresh, InOrder, Sound}
use vm_vitals.Store.Table.Sound.Write.{try_write-Sound}
use vm_vitals.Store.Compact.{Aggregate}
use vm_vitals.Store.Compact.Run.{CompactRun, all_execute, last_of, try_compact}
use vm_vitals.Store.Compact.Run.Keeps.{compact_tables-InOrder}

-- The store of a new file, and of a file that is opened again.
unfoldable pub empty_tables : {F : Type 0} → Tables F
empty_tables = record { metric = []; samples = []; last_compact = none }

unfoldable pub reopened : {F : Type 0} → Tables F → History F
reopened t = record { tables = t; ids = [] }

module _ (fl : Float) (rowid : List (ℕ × Text) → ℕ) (ag : Aggregate fl.F) where
  open fl use {F}

  -- The stores that a run leads to. The index says whether no write failed since the memo was empty.
  pub data Reach : Bool → History F → Type 0 where
    created : Reach true (reopened empty_tables)
    wrote :
        {h : History F}
        → (run : SqlRun) (ts : ℕ) (points : List (Text × F)) → Reach true h
        → (try_write fl rowid run ts points h).1 ≡ ok tt
        → Reach true (try_write fl rowid run ts points h).0
    failed :
        {b : Bool} {h : History F}
        → (run : SqlRun) (ts : ℕ) (points : List (Text × F)) (e : String) → Reach b h
        → (try_write fl rowid run ts points h).1 ≡ err e
        → Reach false (try_write fl rowid run ts points h).0
    compacted :
        {b : Bool} {h : History F}
        → (run : CompactRun) (now : ℤ) → Reach b h
        → (try_compact ag run now h).1 ≡ ok tt
        → Reach true (try_compact ag run now h).0
    gave_up :
        {b : Bool} {h : History F}
        → (run : CompactRun) (now : ℤ) (e : String) → Reach b h
        → (try_compact ag run now h).1 ≡ err e
        → Reach b (try_compact ag run now h).0
    restarted : {b : Bool} {h : History F} → Reach b h → Reach true (reopened h.tables)

  -- What a store is known to be, whether or not its memo is to be trusted.
  pub record Holds (b : Bool) (h : History F) : Type 0 where
    pub inside : InOrder h.tables
    pub memo :
        b ≡ true
        → (name : Text) (i : ℕ) → get name h.ids ≡ some i
        → id_of name h.tables.metric ≡ some i

  nothing_known : (b : Bool) (h : History F) → InOrder h.tables → h.ids ≡ [] → Holds b h
  unfolding get
  nothing_known b h o e = record {
    inside = o;
    memo = λ t name i g. let g' = rw e at g in absurd (ground arith);
  }

  empty-InOrder : InOrder {F = F} empty_tables
  unfolding empty_tables id_of
  empty-InOrder = record {
    names = tt;
    injective = λ m n i p q. absurd (ground arith);
    named = tt;
    keys = tt;
  }

  -- A write that fails leaves the tables as they were.
  pub try_write_failed :
      (run : SqlRun) (ts : ℕ) (points : List (Text × F)) (h : History F) (e : String)
      → (try_write fl rowid run ts points h).1 ≡ err e
      → (try_write fl rowid run ts points h).0.tables ≡ h.tables
  unfolding try_write end_write
  try_write_failed run ts points h e bad = elim (Bool-cases run.begins) [
    | inr b ↦ rw b refl
    | inl b ↦
        elim (Bool-cases ((write_points fl rowid run 0 (as_i64 ts) points h).1 && run.commits)) [
          | inr d ↦ rw (b, d) refl
          | inl d ↦ let bad' = rw (b, d) at bad in absurd (ground arith)
        ]
  ]

  try_compact-Holds :
      (run : CompactRun) (now : ℤ) (b : Bool) (h : History F)
      → Holds b h
      → (try_compact ag run now h).1 ≡ ok tt
      → Holds true (try_compact ag run now h).0
  unfolding try_compact
  try_compact-Holds run now b h s good =
      elim (Bool-cases (run.begins && all_execute run && run.commits)) [
        | inr e ↦ let good' = rw e at good in absurd (ground arith)
        | inl e ↦
            let last = last_of run.reads h.tables.last_compact in
            rw e (nothing_known true _ (compact_tables-InOrder ag last now h.tables s.inside) refl)
      ]

  try_compact_failed :
      (run : CompactRun) (now : ℤ) (h : History F) (e : String)
      → (try_compact ag run now h).1 ≡ err e
      → (try_compact ag run now h).0 ≡ h
  unfolding try_compact
  try_compact_failed run now h e bad =
      elim (Bool-cases (run.begins && all_execute run && run.commits)) [
        | inr d ↦ rw d refl
        | inl d ↦ let bad' = rw d at bad in absurd (ground arith)
      ]

  pub Reach-Holds : IsFresh rowid → {b : Bool} {h : History F} → Reach b h → Holds b h
  unfolding reopened
  Reach-Holds fresh created = nothing_known true _ empty-InOrder refl
  Reach-Holds fresh (wrote {h} run ts points r good) =
      let s = Reach-Holds fresh r in
      let s' =
        try_write-Sound fl rowid fresh run ts points h
          (record { inside = s.inside; memo = s.memo refl }) good in
      record { inside = s'.inside; memo = λ t. s'.memo }
  Reach-Holds fresh (failed {h = h} run ts points e r bad) = record {
    inside = rw (try_write_failed run ts points h e bad) (Reach-Holds fresh r).inside;
    memo = λ t. absurd (ground arith);
  }
  Reach-Holds fresh (compacted {b} {h} run now r good) =
      try_compact-Holds run now b h (Reach-Holds fresh r) good
  Reach-Holds fresh (gave_up {b} {h} run now e r bad) =
      rw (try_compact_failed run now h e bad) (Reach-Holds fresh r)
  Reach-Holds fresh (restarted {h = h} r) = nothing_known true _ (Reach-Holds fresh r).inside refl

  -- Where SQLite gives fresh ids: a store that a run of writes, compactions and restarts leads to
  -- is in order, and its memo agrees with the tables, when no write failed since the memo was last
  -- empty. A failed write before that does no harm.
  pub Reach-Sound : IsFresh rowid → {h : History F} → Reach true h → Sound h
  Reach-Sound fresh r =
      let s = Reach-Holds fresh r in record { inside = s.inside; memo = s.memo refl }
