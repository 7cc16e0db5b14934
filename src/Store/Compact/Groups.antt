-- ===== src/Store/Compact/Groups.antt =====
-- store.rs, `try_compact`: the groups of a rollup against a direct description of a bucket.
use vm_vitals.Base.{
  ℕ, ◌+◌, ◌<◌, ◌==◌, ◌≡◌, refl, sym, ◌∙◌, Bool, true, false, ◌&&◌, List, [], ◌∷◌, Option, none,
  some, arith, if◌then◌else◌, Bool-cases, inl, inr,
}
use vm_vitals.Base.Int.{ℤ, pos, leb_ℤ, eq_ℤ}
use vm_vitals.Store.Table.{Row, replace_row}
use vm_vitals.Store.Table.Query.{eq_ℤ→eq}
use vm_vitals.Store.Table.Rows.{has_key, row_at, row_at-replace_row, eq_ℤ-trans}
use vm_vitals.Store.Compact.Bucket.{in_bucket, eq_ℤ-bucket_of}
use vm_vitals.Store.Compact.{
  Aggregate, Group, bucket_of, group_of, combine, add_group, group_rows, row_of, replace_groups,
  roll_up,
}

module _ {F : Type 0} (ag : Aggregate F) where
  open ag use {plus, weigh, divide_by, min_of, max_of}

  -- The rows of one metric in one bucket of the tier below, from a time on.
  unfoldable pub bucket_rows : ℕ → ℕ → ℤ → ℕ → ℤ → List (Row F) → List (Row F)
  bucket_rows width source lo mid b [] = []
  bucket_rows width source lo mid b (r ∷ rows) =
      let rest = bucket_rows width source lo mid b rows in
      if (eq_ℤ r.res (pos source) && leb_ℤ lo r.ts) && (r.mid == mid && in_bucket width r.ts b)
      then r ∷ rest
      else rest

  -- Column by column, over a row and the rows behind it.
  unfoldable pub sum_of : Row F → List (Row F) → F
  sum_of r [] = weigh r.avg r.n
  sum_of r (s ∷ rows) = plus (sum_of s rows) (weigh r.avg r.n)

  unfoldable pub least_of : Row F → List (Row F) → F
  least_of r [] = r.min
  least_of r (s ∷ rows) = min_of (least_of s rows) r.min

  unfoldable pub greatest_of : Row F → List (Row F) → F
  greatest_of r [] = r.max
  greatest_of r (s ∷ rows) = max_of (greatest_of s rows) r.max

  unfoldable pub count_of : Row F → List (Row F) → ℕ
  count_of r [] = r.n
  count_of r (s ∷ rows) = count_of s rows + r.n

  -- The group of a bucket, and none for an empty bucket.
  unfoldable pub summary : ℕ → ℤ → List (Row F) → Option (Group F)
  unfolding sum_of least_of greatest_of count_of
  summary mid b [] = none
  summary mid b (r ∷ rows) = some (record {
    mid = mid;
    ts = b;
    total = sum_of r rows;
    min = least_of r rows;
    max = greatest_of r rows;
    n = count_of r rows;
  })

  is_group : ℕ → ℤ → Group F → Bool
  is_group mid b g = g.mid == mid && eq_ℤ g.ts b

  group_at : ℕ → ℤ → List (Group F) → Option (Group F)
  unfolding is_group
  group_at mid b [] = none
  group_at mid b (g ∷ groups) = if is_group mid b g then some g else group_at mid b groups

  merged : Group F → Option (Group F) → Group F
  merged g none = g
  merged g (some s) = combine ag g s

  is_group-combine :
      (mid : ℕ) (b : ℤ) (g s : Group F)
      → (g.mid == s.mid && eq_ℤ g.ts s.ts) ≡ true
      → is_group mid b (combine ag g s) ≡ is_group mid b g
  unfolding is_group combine
  is_group-combine mid b g s h =
      let a : g.mid ≡ s.mid = ground arith in
      let c : eq_ℤ g.ts s.ts ≡ true = ground arith in rw (a, eq_ℤ-trans g.ts s.ts b c)

  is_group_once :
      (mid : ℕ) (b : ℤ) (g s : Group F)
      → (g.mid == s.mid && eq_ℤ g.ts s.ts) ≡ false
      → is_group mid b g ≡ true
      → is_group mid b s ≡ false
  unfolding is_group
  is_group_once mid b g s h k =
      let a : (s.mid == mid) ≡ (g.mid == s.mid) = ground arith in
      let c : eq_ℤ s.ts b ≡ eq_ℤ g.ts s.ts = ground arith in rw (a, c) h

  is_group-same :
      (mid : ℕ) (b : ℤ) (g s : Group F)
      → (g.mid == s.mid && eq_ℤ g.ts s.ts) ≡ true
      → is_group mid b s ≡ is_group mid b g
  unfolding is_group
  is_group-same mid b g s h =
      let a : g.mid ≡ s.mid = ground arith in
      let c : eq_ℤ g.ts s.ts ≡ true = ground arith in rw (a, eq_ℤ-trans g.ts s.ts b c)

  group_at-add_group :
      (mid : ℕ) (b : ℤ) (g : Group F) (groups : List (Group F))
      → group_at mid b (add_group ag g groups) ≡ (
          if is_group mid b g
          then some (merged g (group_at mid b groups))
          else group_at mid b groups)
  unfolding group_at add_group merged
  group_at-add_group mid b g [] = refl
  group_at-add_group mid b g (s ∷ groups) = elim (Bool-cases (g.mid == s.mid && eq_ℤ g.ts s.ts)) [
    | inl e ↦ elim (Bool-cases (is_group mid b g)) [
      | inl k ↦ rw (e, is_group-combine mid b g s e, k)
      | inr k ↦ rw (e, is_group-combine mid b g s e, k)
    ]
    | inr e ↦ elim (Bool-cases (is_group mid b g)) [
      | inl k ↦ rw (e, is_group_once mid b g s e k, group_at-add_group mid b g groups, k)
      | inr k ↦ rw (e, group_at-add_group mid b g groups, k)
    ]
  ]

  merged-summary :
      (width mid : ℕ) (b : ℤ) (r : Row F) (rows : List (Row F))
      → is_group mid b (group_of ag width r) ≡ true
      → some (merged (group_of ag width r) (summary mid b rows)) ≡ summary mid b (r ∷ rows)
  unfolding is_group merged summary sum_of least_of greatest_of count_of combine group_of
  merged-summary width mid b r [] h =
      let m : r.mid ≡ mid = ground arith in
      let t : eq_ℤ (bucket_of width r.ts) b ≡ true = ground arith in
      rw (m, eq_ℤ→eq (bucket_of width r.ts) b t)
  merged-summary width mid b r (s ∷ rows) h = refl

  is_group-in_bucket :
      (width mid : ℕ) (b : ℤ) (r : Row F)
      → 0 < width
      → is_group mid b (group_of ag width r) ≡ (r.mid == mid && in_bucket width r.ts b)
  unfolding is_group group_of
  is_group-in_bucket width mid b r h = rw (eq_ℤ-bucket_of width r.ts b h) refl

  -- The groups that a rollup computes are the summaries of the buckets.
  group_at-group_rows :
      (width source : ℕ) (lo : ℤ) (mid : ℕ) (b : ℤ) (rows : List (Row F))
      → 0 < width
      → group_at mid b (group_rows ag width source lo rows)
        ≡ summary mid b (bucket_rows width source lo mid b rows)
  unfolding group_at group_rows bucket_rows
  group_at-group_rows width source lo mid b [] h = unfold summary in refl
  group_at-group_rows width source lo mid b (r ∷ rows) h =
      let rest = group_at-group_rows width source lo mid b rows h in
      let same = sym (is_group-in_bucket width mid b r h) in
      elim (Bool-cases (eq_ℤ r.res (pos source) && leb_ℤ lo r.ts)) [
        | inr e ↦ rw (e, rest)
        | inl e ↦ elim (Bool-cases (is_group mid b (group_of ag width r))) [
          | inr k ↦ rw (e, group_at-add_group, k, same ∙ k, rest)
          | inl k ↦
              rw (e, group_at-add_group, k, same ∙ k, rest)
                (merged-summary width mid b r (bucket_rows width source lo mid b rows) k)
        ]
      ]

  -- No two groups are of one bucket.
  GroupsDistinct : List (Group F) → Type 0
  GroupsDistinct [] = Unit
  GroupsDistinct (g ∷ groups) = (group_at g.mid g.ts groups ≡ none) × GroupsDistinct groups

  group_at-same :
      (g s : Group F) (groups : List (Group F))
      → (g.mid == s.mid && eq_ℤ g.ts s.ts) ≡ true
      → group_at g.mid g.ts groups ≡ group_at s.mid s.ts groups
  group_at-same g s groups h =
      let m : g.mid ≡ s.mid = ground arith in
      let t : eq_ℤ g.ts s.ts ≡ true = ground arith in rw (m, eq_ℤ→eq g.ts s.ts t)

  is_group_self :
      (mid : ℕ) (b : ℤ) (g s : Group F) → is_group s.mid s.ts g ≡ (g.mid == s.mid && eq_ℤ g.ts s.ts)
  unfolding is_group
  is_group_self mid b g s = refl

  add_group-GroupsDistinct :
      (g : Group F) (groups : List (Group F))
      → GroupsDistinct groups
      → GroupsDistinct (add_group ag g groups)
  unfolding add_group group_at GroupsDistinct
  add_group-GroupsDistinct g [] d = (refl, tt)
  add_group-GroupsDistinct g (s ∷ groups) d = elim (Bool-cases (g.mid == s.mid && eq_ℤ g.ts s.ts)) [
    | inl e ↦ rw e (unfold combine in d.0, d.1)
    | inr e ↦ rw e (
      rw (group_at-add_group s.mid s.ts g groups, is_group_self s.mid s.ts g s, e) d.0,
      add_group-GroupsDistinct g groups d.1,
    )
  ]

  group_rows-GroupsDistinct :
      (width source : ℕ) (lo : ℤ) (rows : List (Row F))
      → GroupsDistinct (group_rows ag width source lo rows)
  unfolding group_rows GroupsDistinct
  group_rows-GroupsDistinct width source lo [] = tt
  group_rows-GroupsDistinct width source lo (r ∷ rows) =
      let rest = group_rows-GroupsDistinct width source lo rows in
      elim (Bool-cases (eq_ℤ r.res (pos source) && leb_ℤ lo r.ts)) [
        | inl e ↦ rw e (add_group-GroupsDistinct (group_of ag width r) _ rest)
        | inr e ↦ rw e rest
      ]

  -- The row of a group, column by column: the average is the total over the number of values. Without
  -- a group, the row that was there.
  row_or : ℕ → Option (Group F) → Option (Row F) → Option (Row F)
  row_or width none old = old
  row_or width (some g) old = some (record {
    res = pos width;
    ts = g.ts;
    mid = g.mid;
    avg = divide_by g.total g.n;
    min = g.min;
    max = g.max;
    n = g.n;
  })

  has_key-row_of :
      (width mid : ℕ) (b : ℤ) (g : Group F)
      → has_key (pos width) b mid (row_of ag width g) ≡ is_group mid b g
  unfolding has_key row_of is_group
  has_key-row_of width mid b g = ground arith

  row_at-replace_groups :
      (width mid : ℕ) (b : ℤ) (groups : List (Group F)) (rows : List (Row F))
      → GroupsDistinct groups
      → row_at (pos width) b mid (replace_groups ag width groups rows)
        ≡ row_or width (group_at mid b groups) (row_at (pos width) b mid rows)
  unfolding replace_groups group_at row_or GroupsDistinct
  row_at-replace_groups width mid b [] rows d = refl
  row_at-replace_groups width mid b (g ∷ groups) rows d =
      let rest =
        row_at-replace_groups width mid b groups (replace_row (row_of ag width g) rows) d.1 in
      elim (Bool-cases (is_group mid b g)) [
        | inr k ↦ rw (rest, row_at-replace_row, has_key-row_of width mid b g, k)
        | inl k ↦
            let m : g.mid ≡ mid = unfold is_group in ground arith in
            let t : eq_ℤ g.ts b ≡ true = unfold is_group in ground arith in
            let u = eq_ℤ→eq g.ts b t in
            let absent : group_at mid b groups ≡ none = rw (sym m, sym u) d.0 in
            rw (rest, absent, row_at-replace_row, has_key-row_of width mid b g, k)
      ]

  -- The row that a rollup leaves at a bucket.
  unfoldable pub rolled_up : ℕ → ℕ → ℤ → ℕ → ℤ → List (Row F) → Option (Row F)
  unfolding row_or summary bucket_rows
  rolled_up width source lo mid b rows =
      row_or width (summary mid b (bucket_rows width source lo mid b rows))
        (row_at (pos width) b mid rows)

  -- After a rollup, the row of the upper tier at a bucket of a metric summarises, column by column, the
  -- rows of the tier below that fall into that bucket from the rollup's start on; a bucket without such
  -- rows keeps the row it had.
  pub roll_up-summary :
      (width source : ℕ) (lo : ℤ) (mid : ℕ) (b : ℤ) (rows : List (Row F))
      → 0 < width
      → row_at (pos width) b mid (roll_up ag width source lo rows)
        ≡ rolled_up width source lo mid b rows
  unfolding roll_up rolled_up
  roll_up-summary width source lo mid b rows h =
      row_at-replace_groups width mid b (group_rows ag width source lo rows) rows
        (group_rows-GroupsDistinct width source lo rows)
      ∙ rw (group_at-group_rows width source lo mid b rows h)
