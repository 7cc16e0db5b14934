-- ===== src/Store/Compact/Run/Names.antt =====
-- store.rs, `try_compact`: the names that are dropped.
use vm_vitals.Base.{
  ℕ, ◌≡◌, refl, sym, ◌∙◌, inl, inr, true, List, [], ◌∷◌, none, some, arith, if◌then◌else◌, All,
  Bool-cases, Option-cases, Text, text_eq, text_eq_iff,
}
use vm_vitals.Store.Table.{Row, id_of}
use vm_vitals.Store.Table.Sound.{NamesDistinct, HasName, All-imp}
use vm_vitals.Store.Compact.Run.{is_used, drop_unused}

module _ {F : Type 0} where
  is_used-All : (rows : List (Row F)) → All (λ r. is_used r.mid rows ≡ true) rows
  unfolding is_used
  is_used-All [] = tt
  is_used-All (r ∷ rows) = (
    ground arith,
    All-imp (λ s. is_used s.mid rows ≡ true) (λ s. is_used s.mid (r ∷ rows) ≡ true) rows
        (λ s u. ground arith) (is_used-All rows),
  )

  -- A name that is dropped is found no more; any other keeps its id.
  pub id_of-drop_unused :
      (rows : List (Row F)) (metric : List (ℕ × Text)) (name : Text)
      → NamesDistinct metric
      → id_of name (drop_unused rows metric) ≡ (elim (id_of name metric) [
        | none ↦ none
        | some i ↦ if is_used i rows then some i else none
      ])
  unfolding id_of drop_unused
  id_of-drop_unused rows [] name d = refl
  id_of-drop_unused rows ((i, m) ∷ metric) name d =
      let rest = id_of-drop_unused rows metric name d.1 in
      elim (Bool-cases (text_eq m name)) [
        | inr e ↦ elim (Bool-cases (is_used i rows)) [
          | inl u ↦ rw (e, u, e) rest
          | inr u ↦ rw (e, u) rest
        ]
        | inl e ↦
            let same : m ≡ name = ground (arith, text_eq_iff m name) in
            let absent : id_of name metric ≡ none = rw (sym same) d.0 in
            elim (Bool-cases (is_used i rows)) [
              | inl u ↦ rw (e, u) (rw e refl)
              | inr u ↦ let rest' = rw absent at rest in rw (e, u) rest'
            ]
      ]

  id_of-drop_unused_used :
      (rows : List (Row F)) (metric : List (ℕ × Text)) (name : Text) (i : ℕ)
      → NamesDistinct metric
      → id_of name metric ≡ some i
      → is_used i rows ≡ true
      → id_of name (drop_unused rows metric) ≡ some i
  id_of-drop_unused_used rows metric name i d e u = id_of-drop_unused rows metric name d ∙ rw (e, u)

  pub id_of-drop_unused_was :
      (rows : List (Row F)) (metric : List (ℕ × Text)) (name : Text) (i : ℕ)
      → NamesDistinct metric
      → id_of name (drop_unused rows metric) ≡ some i
      → id_of name metric ≡ some i
  id_of-drop_unused_was rows metric name i d h =
      let e = id_of-drop_unused rows metric name d in
      elim (Option-cases (id_of name metric)) [
        | inl none_there ↦ let e' = rw (none_there, h) at e in absurd (ground arith)
        | inr (j, there) ↦ elim (Bool-cases (is_used j rows)) [
          | inl u ↦ let e' = rw (there, u, h) at e in there ∙ sym e'
          | inr u ↦ let e' = rw (there, u, h) at e in absurd (ground arith)
        ]
      ]

  pub drop_unused-NamesDistinct :
      (rows : List (Row F)) (metric : List (ℕ × Text))
      → NamesDistinct metric
      → NamesDistinct (drop_unused rows metric)
  unfolding drop_unused
  drop_unused-NamesDistinct rows [] d = tt
  drop_unused-NamesDistinct rows ((i, m) ∷ metric) d = elim (Bool-cases (is_used i rows)) [
    | inl u ↦
        rw u
          (id_of-drop_unused rows metric m d.1 ∙ rw d.0, drop_unused-NamesDistinct rows metric d.1)
    | inr u ↦ rw u (drop_unused-NamesDistinct rows metric d.1)
  ]

  All-both {κ μ ν} :
      (P : Row F → Type κ) (Q : Row F → Type μ) (R : Row F → Type ν) (rows : List (Row F))
      → ((r : Row F) → P r → Q r → R r)
      → All P rows
      → All Q rows
      → All R rows
  All-both P Q R [] f p q = tt
  All-both P Q R (r ∷ rows) f p q = (f r p.0 q.0, All-both P Q R rows f p.1 q.1)

  -- The rows that are left keep their names.
  pub drop_unused-HasName :
      (rows : List (Row F)) (metric : List (ℕ × Text))
      → NamesDistinct metric
      → All (HasName metric) rows
      → All (HasName (drop_unused rows metric)) rows
  drop_unused-HasName rows metric d all =
      All-both (HasName metric) (λ r. is_used r.mid rows ≡ true) (HasName (drop_unused rows metric))
        rows (λ r n u. (n.0, id_of-drop_unused_used rows metric n.0 r.mid d n.1 u)) all
        (is_used-All rows)
