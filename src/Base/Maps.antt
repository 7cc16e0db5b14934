-- ===== src/Base/Maps.antt =====
-- A `HashMap<String, V>` as an association list. The order of the list stands for the order of
-- iteration, which the source leaves open: no statement fixes it.
use Prim.Native.Nat.{◌≤◌, ◌<◌}
use mathlib.Core.Path.{◌≡◌, refl}
use mathlib.Core.Bool.{Bool}
use mathlib.Core.List.{List, [], ◌∷◌}
use mathlib.Core.Option.{Option, none, some}
use native.Mathlib.Omega.{arith}
use vm_vitals.Base.Tests.{if◌then◌else◌}
use vm_vitals.Base.Lists.{length}
use vm_vitals.Base.Texts.{Text, text_eq, text_eq_iff, text_eq_refl}

abbrev pub Map : Type 0 → Type 0
Map V = List (Text × V)

module _ {V : Type 0} where
  -- `m.get(k)`.
  unfoldable pub get : Text → Map V → Option V
  get k [] = none
  get k ((j, v) ∷ m) = if text_eq j k then some v else get k m

  -- `m.remove(k)`.
  unfoldable pub remove : Text → Map V → Map V
  remove k [] = []
  remove k ((j, v) ∷ m) = if text_eq j k then remove k m else (j, v) ∷ remove k m

  -- `m.insert(k, v)`.
  unfoldable pub insert : Text → V → Map V → Map V
  insert k v m = (k, v) ∷ remove k m

  -- `m.retain(|_, v| p(v))`.
  unfoldable pub retain : (V → Bool) → Map V → Map V
  retain p [] = []
  retain p ((j, v) ∷ m) = if p v then (j, v) ∷ retain p m else retain p m

  -- No key stands twice.
  abbrev pub Distinct : Map V → Type 0
  Distinct [] = Unit
  Distinct ((j, v) ∷ m) = (get j m ≡ none) × Distinct m

  pub get-remove_self : (k : Text) (m : Map V) → get k (remove k m) ≡ none
  unfolding get remove
  get-remove_self k [] = refl
  get-remove_self k ((j, v) ∷ m) = ground (arith, get-remove_self k m)

  pub remove_absent : (k : Text) (m : Map V) → get k m ≡ none → remove k m ≡ m
  unfolding get remove
  remove_absent k [] h = refl
  remove_absent k ((j, v) ∷ m) h = ground (arith, remove_absent k m)

  pub get-remove :
      (k j : Text) (m : Map V) → get j (remove k m) ≡ (if text_eq k j then none else get j m)
  unfolding get remove
  get-remove k j [] = ground arith
  get-remove k j ((i, v) ∷ m) =
      ground (arith, text_eq_iff i k, text_eq_iff i j, text_eq_iff k j, get-remove k j m)

  pub get-insert :
      (k j : Text) (v : V) (m : Map V)
      → get j (insert k v m) ≡ (if text_eq k j then some v else get j m)
  unfolding get insert
  get-insert k j v m = ground (arith, get-remove k j m)

  pub get-insert_self : (k : Text) (v : V) (m : Map V) → get k (insert k v m) ≡ some v
  get-insert_self k v m = rw (get-insert, text_eq_refl)

  pub length-remove-le : (k : Text) (m : Map V) → length (remove k m) ≤ length m
  unfolding remove
  length-remove-le k [] = omega arith
  length-remove-le k ((j, v) ∷ m) = ground (arith, length-remove-le k m)

  -- Removing a key that is there makes the map smaller.
  pub length-remove-lt :
      (k : Text) (v : V) (m : Map V) → get k m ≡ some v → length (remove k m) < length m
  unfolding get remove
  length-remove-lt k v [] h = cc
  length-remove-lt k v ((j, u) ∷ m) h = ground (arith, length-remove-le k m, length-remove-lt k v m)

  pub length-retain-le : (p : V → Bool) (m : Map V) → length (retain p m) ≤ length m
  unfolding retain
  length-retain-le p [] = omega arith
  length-retain-le p ((j, v) ∷ m) = ground (arith, length-retain-le p m)

  -- What `retain` leaves under a key of a map with distinct keys.
  pub get-retain_absent :
      (p : V → Bool) (k : Text) (m : Map V) → get k m ≡ none → get k (retain p m) ≡ none
  unfolding get retain
  get-retain_absent p k [] h = refl
  get-retain_absent p k ((j, v) ∷ m) h = ground (arith, get-retain_absent p k m)

  pub retain-Distinct : (p : V → Bool) (m : Map V) → Distinct m → Distinct (retain p m)
  unfolding retain
  retain-Distinct p [] d = tt
  retain-Distinct p ((j, v) ∷ m) d =
      ground (arith, retain-Distinct p m d.1, get-retain_absent p j m d.0)

  pub remove-Distinct : (k : Text) (m : Map V) → Distinct m → Distinct (remove k m)
  unfolding remove
  remove-Distinct k [] d = tt
  remove-Distinct k ((j, v) ∷ m) d = ground (arith, remove-Distinct k m d.1, get-remove k j m)

  pub insert-Distinct : (k : Text) (v : V) (m : Map V) → Distinct m → Distinct (insert k v m)
  unfolding insert
  insert-Distinct k v m d = (get-remove_self k m, remove-Distinct k m d)

  abbrev pub keep_if : (V → Bool) → Option V → Option V
  keep_if p none = none
  keep_if p (some v) = if p v then some v else none

  pub get-retain :
      (p : V → Bool) (k : Text) (m : Map V) → Distinct m → get k (retain p m) ≡ keep_if p (get k m)
  unfolding get retain
  get-retain p k [] d = refl
  get-retain p k ((j, v) ∷ m) d = ground (
    arith,
    text_eq_iff j k,
    get-retain p k m d.1,
    get-retain_absent p j m d.0,
    get-retain_absent p k m,
  )
