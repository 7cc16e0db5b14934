-- ===== src/Store/Open/Resumes.antt =====
-- store.rs, `migrate`: what it leaves, and that it can be taken up again after a failure.
use vm_vitals.Base.{
  ℕ, zero, suc, ◌≡◌, refl, sym, ◌∙◌, inl, inr, true, false, ◌||◌, List, [], ◌∷◌, Option, arith,
  if◌then◌else◌, take, take-nil, Bool-cases, Text,
}
use vm_vitals.Base.Int.{ℤ, pos, eq_ℤ}
use vm_vitals.Store.Table.{Row}
use vm_vitals.Store.Open.{
  schema_version, SqlTable, absent, present, foreign, File, is_there, create, execute, execute_all,
  is_outdated, statements_of, migrate, migrate_until, Statement, drop_samples, drop_metric,
  create_metric, create_samples, create_index, create_meta, set_version,
}

abbrev making : List Statement
making = create_metric ∷ create_samples ∷ create_index ∷ create_meta ∷ set_version ∷ []

create_again : {A : Type 0} (t : SqlTable (List A)) → create (create t) ≡ create t
unfolding create
create_again absent = refl
create_again (present a) = refl
create_again foreign = refl

not_there : {A : Type 0} (t : SqlTable A) → is_there t ≡ false → t ≡ absent
unfolding is_there
not_there absent h = refl
not_there (present a) h = absurd (ground arith)
not_there foreign h = absurd (ground arith)

module _ {F : Type 0} where
  -- A file of this schema: what there is stays, and what is missing is made.
  migrate-same :
      (v : ℤ) (m : SqlTable (List (ℕ × Text))) (s : SqlTable (List (Row F))) (last : Option ℤ)
      → eq_ℤ v (pos schema_version) ≡ true
      → migrate (record { user_version = v; metric = m; samples = s; last_compact = last })
        ≡ record {
          user_version = pos schema_version;
          metric = create m;
          samples = create s;
          last_compact = last;
        }
  unfolding migrate is_outdated execute_all execute statements_of
  migrate-same v m s last h = elim (Bool-cases (is_there s || is_there m)) [
    | inl t ↦ rw (t, h) refl
    | inr t ↦ rw t refl
  ]

  -- A file of another schema, or a new one: both tables are there, and empty.
  migrate_other :
      (v : ℤ) (m : SqlTable (List (ℕ × Text))) (s : SqlTable (List (Row F))) (last : Option ℤ)
      → eq_ℤ v (pos schema_version) ≡ false
      → migrate (record { user_version = v; metric = m; samples = s; last_compact = last })
        ≡ record {
          user_version = pos schema_version;
          metric = present [];
          samples = present [];
          last_compact = last;
        }
  unfolding migrate is_outdated execute_all execute statements_of create is_there
  migrate_other v absent absent last h = refl
  migrate_other v absent (present s) last h = rw h refl
  migrate_other v absent foreign last h = rw h refl
  migrate_other v (present m) absent last h = rw h refl
  migrate_other v (present m) (present s) last h = rw h refl
  migrate_other v (present m) foreign last h = rw h refl
  migrate_other v foreign absent last h = rw h refl
  migrate_other v foreign (present s) last h = rw h refl
  migrate_other v foreign foreign last h = rw h refl

  same_until :
      (n : ℕ) (v : ℤ) (m : SqlTable (List (ℕ × Text))) (s : SqlTable (List (Row F)))
      (last : Option ℤ)
      → eq_ℤ v (pos schema_version) ≡ true
      → migrate (
          execute_all
            (take n making)
            (record { user_version = v; metric = m; samples = s; last_compact = last }))
        ≡ migrate (record { user_version = v; metric = m; samples = s; last_compact = last })
  unfolding execute_all execute
  same_until zero v m s last h = refl
  same_until (suc zero) v m s last h =
      migrate-same v (create m) s last h ∙ rw (create_again m) (sym (migrate-same v m s last h))
  same_until (suc (suc zero)) v m s last h =
      migrate-same v (create m) (create s) last h
      ∙ rw (create_again m, create_again s) (sym (migrate-same v m s last h))
  same_until (suc (suc (suc zero))) v m s last h =
      migrate-same v (create m) (create s) last h
      ∙ rw (create_again m, create_again s) (sym (migrate-same v m s last h))
  same_until (suc (suc (suc (suc zero)))) v m s last h =
      migrate-same v (create m) (create s) last h
      ∙ rw (create_again m, create_again s) (sym (migrate-same v m s last h))
  same_until (suc (suc (suc (suc (suc n))))) v m s last h = rw (take-nil {A = Statement} n) (
      migrate-same (pos 1) (create m) (create s) last refl
      ∙ rw (create_again m, create_again s) (sym (migrate-same v m s last h)))

  -- The statements of a file of another schema, on any tables.
  other_until :
      (n : ℕ) (v : ℤ) (m : SqlTable (List (ℕ × Text))) (s : SqlTable (List (Row F)))
      (last : Option ℤ)
      → eq_ℤ v (pos schema_version) ≡ false
      → migrate (
          execute_all
            (take n (drop_samples ∷ drop_metric ∷ making))
            (record { user_version = v; metric = m; samples = s; last_compact = last }))
        ≡ migrate (record { user_version = v; metric = m; samples = s; last_compact = last })
  unfolding execute_all execute create
  other_until zero v m s last h = refl
  other_until (suc zero) v m s last h =
      migrate_other v m absent last h ∙ sym (migrate_other v m s last h)
  other_until (suc (suc zero)) v m s last h =
      migrate_other v absent absent last h ∙ sym (migrate_other v m s last h)
  other_until (suc (suc (suc zero))) v m s last h =
      migrate_other v (present []) absent last h ∙ sym (migrate_other v m s last h)
  other_until (suc (suc (suc (suc zero)))) v m s last h =
      migrate_other v (present []) (present []) last h ∙ sym (migrate_other v m s last h)
  other_until (suc (suc (suc (suc (suc zero))))) v m s last h =
      migrate_other v (present []) (present []) last h ∙ sym (migrate_other v m s last h)
  other_until (suc (suc (suc (suc (suc (suc zero)))))) v m s last h =
      migrate_other v (present []) (present []) last h ∙ sym (migrate_other v m s last h)
  other_until (suc (suc (suc (suc (suc (suc (suc n))))))) v m s last h =
      rw (take-nil {A = Statement} n) (
        migrate-same (pos 1) (present []) (present []) last refl ∙ sym (migrate_other v m s last h))

  -- The statements of a new file.
  new_until :
      (n : ℕ) (v : ℤ) (last : Option ℤ)
      → eq_ℤ v (pos schema_version) ≡ false
      → migrate {F = F} (
          execute_all
            (take n making)
            (record { user_version = v; metric = absent; samples = absent; last_compact = last }))
        ≡ migrate
            (record { user_version = v; metric = absent; samples = absent; last_compact = last })
  unfolding execute_all execute create
  new_until zero v last h = refl
  new_until (suc zero) v last h =
      migrate_other v (present []) absent last h ∙ sym (migrate_other v absent absent last h)
  new_until (suc (suc zero)) v last h =
      migrate_other v (present []) (present []) last h ∙ sym (migrate_other v absent absent last h)
  new_until (suc (suc (suc zero))) v last h =
      migrate_other v (present []) (present []) last h ∙ sym (migrate_other v absent absent last h)
  new_until (suc (suc (suc (suc zero)))) v last h =
      migrate_other v (present []) (present []) last h ∙ sym (migrate_other v absent absent last h)
  new_until (suc (suc (suc (suc (suc n))))) v last h = rw (take-nil {A = Statement} n) (
      migrate-same (pos 1) (present []) (present []) last refl
      ∙ sym (migrate_other v absent absent last h))

  migrate-migrate_until : (n : ℕ) (f : File F) → migrate (migrate_until n f) ≡ migrate f
  unfolding migrate_until statements_of is_outdated
  migrate-migrate_until n f = elim (Bool-cases (eq_ℤ f.user_version (pos schema_version))) [
    | inl h ↦ elim (Bool-cases (is_there f.samples || is_there f.metric)) [
      | inl t ↦ rw (t, h) (same_until n f.user_version f.metric f.samples f.last_compact h)
      | inr t ↦ rw t (same_until n f.user_version f.metric f.samples f.last_compact h)
    ]
    | inr h ↦ elim (Bool-cases (is_there f.samples || is_there f.metric)) [
      | inl t ↦ rw (t, h) (other_until n f.user_version f.metric f.samples f.last_compact h)
      | inr t ↦
          let s = not_there f.samples (ground arith) in
          let m = not_there f.metric (ground arith) in
          rw (s, m) (new_until n f.user_version f.last_compact h)
    ]
  ]

  -- What a migration that runs to its end leaves.
  unfoldable pub migrated : File F → File F
  unfolding create
  migrated f = record {
    user_version = pos schema_version;
    metric = if eq_ℤ f.user_version (pos schema_version) then create f.metric else present [];
    samples = if eq_ℤ f.user_version (pos schema_version) then create f.samples else present [];
    last_compact = f.last_compact;
  }

  migrate-migrated : (f : File F) → migrate f ≡ migrated f
  unfolding migrated
  migrate-migrated f = elim (Bool-cases (eq_ℤ f.user_version (pos schema_version))) [
    | inl h ↦ rw h (migrate-same f.user_version f.metric f.samples f.last_compact h)
    | inr h ↦ rw h (migrate_other f.user_version f.metric f.samples f.last_compact h)
  ]

  -- A migration that runs to its end leaves the tables of a file of this schema as they are, but for
  -- those that were missing, and rebuilds both, empty, in any other file. One that stops after any of
  -- its statements is made good by the next that runs to its end: the file is then as if the first had.
  pub migrate-resumes :
      (n : ℕ) (f : File F) → (migrate f ≡ migrated f) × (migrate (migrate_until n f) ≡ migrated f)
  migrate-resumes n f = (migrate-migrated f, migrate-migrate_until n f ∙ migrate-migrated f)
