-- ===== src/Store/Table/Sound.antt =====
-- store.rs: the tables against each other and against the memo, and a sample that is put.
pub mod Write
use vm_vitals.Base.{
  ℕ, suc, ◌≡◌, refl, ◌≢◌, ◌⊎◌, inl, inr, true, false, not, ◌&&◌, is_some, List, [], ◌∷◌, none, some,
  arith, if◌then◌else◌, All, Bool-cases, Option-cases, Text, text_eq, text_eq_iff, text_eq_refl,
  get, get-insert,
}
use vm_vitals.Base.Int.{ℤ}
use vm_vitals.Collect.Cpu.{Float}
use vm_vitals.Store.Table.{
  Row, Tables, History, SqlRun, id_of, replace_row, same_key, metric_id, put_sample, write_points,
}
use vm_vitals.Store.Table.Rows.{KeysDistinct, replace_row-KeysDistinct}
use vm_vitals.Store.Table.Memo.{metric_id_new, metric_id_there, metric_id_known}

-- A new row of `metric` gets an id that no name of the table has.
abbrev pub IsFresh : (List (ℕ × Text) → ℕ) → Type 0
IsFresh rowid = (metric : List (ℕ × Text)) (name : Text) → id_of name metric ≢ some (rowid metric)

-- No name stands twice.
abbrev pub NamesDistinct : List (ℕ × Text) → Type 0
NamesDistinct [] = Unit
NamesDistinct ((i, name) ∷ metric) = (id_of name metric ≡ none) × NamesDistinct metric

module _ {F : Type 0} where
  abbrev pub HasName : List (ℕ × Text) → Row F → Type 0
  HasName metric r = (name : Text) × (id_of name metric ≡ some r.mid)

  -- No name stands twice, no two names share an id, every sample belongs to a name, and no key stands
  -- twice in `samples`.
  pub record InOrder (t : Tables F) : Type 0 where
    pub names : NamesDistinct t.metric
    pub injective :
        (m n : Text) (i : ℕ) → id_of m t.metric ≡ some i → id_of n t.metric ≡ some i → m ≡ n
    pub named : All (HasName t.metric) t.samples
    pub keys : KeysDistinct t.samples

  -- The tables are in order, and what the memo knows is so.
  pub record Sound (h : History F) : Type 0 where
    pub inside : InOrder h.tables
    pub memo : (name : Text) (i : ℕ) → get name h.ids ≡ some i → id_of name h.tables.metric ≡ some i

  pub All-imp {κ μ} :
      (P : Row F → Type κ) (Q : Row F → Type μ) (rows : List (Row F))
      → ((r : Row F) → P r → Q r)
      → All P rows
      → All Q rows
  All-imp P Q [] f all = tt
  All-imp P Q (r ∷ rows) f all = (f r all.0, All-imp P Q rows f all.1)

  pub replace_row-All {κ} :
      (P : Row F → Type κ) (r : Row F) (rows : List (Row F))
      → P r
      → All P rows
      → All P (replace_row r rows)
  unfolding replace_row
  replace_row-All P r [] p all = (p, tt)
  replace_row-All P r (s ∷ rows) p all = elim (Bool-cases (same_key r s)) [
    | inl e ↦ rw e (p, all.1)
    | inr e ↦ rw e (all.0, replace_row-All P r rows p all.1)
  ]

module _ (fl : Float) (rowid : List (ℕ × Text) → ℕ) where
  open fl use {F, is_finite}

  -- What interning a name gives.
  pub record Interned (m : Text) (h h' : History F) (i : ℕ) : Type 0 where
    pub samples : h'.tables.samples ≡ h.tables.samples
    pub here : id_of m h'.tables.metric ≡ some i
    pub others :
        (name : Text)
        → id_of name h'.tables.metric
          ≡ (if text_eq m name then some i else id_of name h.tables.metric)
    pub known :
        (id_of m h.tables.metric ≡ some i)
        ⊎ ((id_of m h.tables.metric ≡ none) × (i ≡ rowid h.tables.metric))
    pub names : NamesDistinct h'.tables.metric
    pub memo :
        (name : Text) (j : ℕ) → get name h'.ids ≡ some j → id_of name h'.tables.metric ≡ some j

  others_same :
      (m : Text) (metric : List (ℕ × Text)) (i : ℕ)
      → id_of m metric ≡ some i
      → (name : Text) → id_of name metric ≡ (if text_eq m name then some i else id_of name metric)
  others_same m metric i e name = ground (arith, text_eq_iff m name)

  pub metric_id-Interned :
      (m : Text) (h : History F)
      → Sound h
      → Interned m h (metric_id fl rowid m h).0 (metric_id fl rowid m h).1
  unfolding id_of
  metric_id-Interned m h s = elim (Option-cases (get m h.ids)) [
    | inr (i, known) ↦
        let e = s.memo m i known in
        rw (metric_id_known fl rowid m h i known) (record {
          samples = refl;
          here = e;
          others = others_same m h.tables.metric i e;
          known = inl e;
          names = s.inside.names;
          memo = s.memo;
        })
    | inl fresh ↦ elim (Option-cases (id_of m h.tables.metric)) [
      | inr (i, e) ↦ rw (metric_id_there fl rowid m h i e fresh) (record {
        samples = refl;
        here = e;
        others = others_same m h.tables.metric i e;
        known = inl e;
        names = s.inside.names;
        memo = λ name j g.
            ground (arith, get-insert m name i h.ids, text_eq_iff m name, s.memo name j);
      })
      | inl absent ↦ rw (metric_id_new fl rowid m h absent fresh) (record {
        samples = refl;
        here = rw text_eq_refl;
        others = λ name. refl;
        known = inr (absent, refl);
        names = (absent, s.inside.names);
        memo = λ name j g. ground (
          arith,
          get-insert m name (rowid h.tables.metric) h.ids,
          text_eq_iff m name,
          s.memo name j,
        );
      })
    ]
  ]

  Interned-keeps :
      (m : Text) (h h' : History F) (i : ℕ)
      → Interned m h h' i
      → (name : Text) (j : ℕ) → id_of name h.tables.metric ≡ some j
      → id_of name h'.tables.metric ≡ some j
  Interned-keeps m h h' i int name j e = elim int.known [
    | inl k ↦ ground (arith, int.others name, text_eq_iff m name)
    | inr k ↦ ground (arith, int.others name, text_eq_iff m name)
  ]

  Interned-injective :
      IsFresh rowid
      → (m : Text) (h h' : History F) (i : ℕ) → Sound h
      → Interned m h h' i
      → (a b : Text) (j : ℕ) → id_of a h'.tables.metric ≡ some j
      → id_of b h'.tables.metric ≡ some j
      → a ≡ b
  Interned-injective fresh m h h' i s int a b j p q = elim int.known [
    | inl k ↦
        let p' : id_of a h.tables.metric ≡ some j = ground (arith, int.others a, text_eq_iff m a) in
        let q' : id_of b h.tables.metric ≡ some j = ground (arith, int.others b, text_eq_iff m b) in
        s.inside.injective a b j p' q'
    | inr (absent, new) ↦ elim (Bool-cases (text_eq m a)) [
      | inl ea ↦ elim (Bool-cases (text_eq m b)) [
        | inl eb ↦ ground (arith, text_eq_iff m a, text_eq_iff m b)
        | inr eb ↦
            let taken : id_of b h.tables.metric ≡ some (rowid h.tables.metric) =
              ground (arith, int.others a, int.others b) in
            absurd (fresh h.tables.metric b taken)
      ]
      | inr ea ↦ elim (Bool-cases (text_eq m b)) [
        | inl eb ↦
            let taken : id_of a h.tables.metric ≡ some (rowid h.tables.metric) =
              ground (arith, int.others a, int.others b) in
            absurd (fresh h.tables.metric a taken)
        | inr eb ↦
            s.inside.injective a b j (ground (arith, int.others a)) (ground (arith, int.others b))
      ]
    ]
  ]

  -- Putting a sample of an interned name keeps the tables in order.
  pub put_sample-Sound :
      IsFresh rowid
      → (ts : ℤ) (m : Text) (v : F) (h : History F) → Sound h
      → Sound (put_sample fl rowid ts v (metric_id fl rowid m h))
  unfolding put_sample
  put_sample-Sound fresh ts m v h s =
      let h' = (metric_id fl rowid m h).0 in
      let i = (metric_id fl rowid m h).1 in
      let int = metric_id-Interned m h s in
      record {
        memo = int.memo;
        inside = record {
          names = int.names;
          injective = Interned-injective fresh m h h' i s int;
          named =
              replace_row-All (HasName h'.tables.metric) _ _ (m, int.here)
                (rw int.samples (
                  All-imp (HasName h.tables.metric) (HasName h'.tables.metric) h.tables.samples
                    (λ r n. (n.0, Interned-keeps m h h' i int n.0 r.mid n.1)) s.inside.named));
          keys = replace_row-KeysDistinct _ _ (rw int.samples s.inside.keys);
        };
      }
