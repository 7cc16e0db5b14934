-- ===== src/Store/Table/Content.antt =====
-- store.rs: what the store holds, as a client sees it, and `try_write` against it. A client knows
-- names, resolutions and times; ids, the order of rows and the memo are hidden.
pub mod Write
pub mod Kept
use mathlib.Core.Option
use vm_vitals.Base.{ℕ, ◌&&◌, List, [], ◌∷◌, Option, none, some, if◌then◌else◌, Text, text_eq}
use vm_vitals.Base.Int.{ℤ, pos, eq_ℤ}
use vm_vitals.Collect.Cpu.{Float}
use vm_vitals.Store.Buckets.{raw}
use vm_vitals.Store.Table.{Row, History, id_of}
use vm_vitals.Store.Table.Rows.{row_at}

-- What a row says, without its key.
pub record Stat (F : Type 0) : Type 0 where
  pub avg : F
  pub min : F
  pub max : F
  pub n : ℕ

-- A history as a client sees it: a value for a name, a resolution and a time.
abbrev pub Contents : Type 0 → Type 0
Contents F = Text → ℤ → ℤ → Option (Stat F)

module _ {F : Type 0} where
  abbrev pub stat_of : Row F → Stat F
  stat_of r = record { avg = r.avg; min = r.min; max = r.max; n = r.n }

  row_of_id : ℤ → ℤ → List (Row F) → Option ℕ → Option (Row F)
  row_of_id res ts rows none = none
  row_of_id res ts rows (some i) = row_at res ts i rows

  -- The row of a name.
  unfoldable pub find_row : History F → Text → ℤ → ℤ → Option (Row F)
  unfolding row_of_id
  find_row h name res ts = row_of_id res ts h.tables.samples (id_of name h.tables.metric)

  unfoldable pub content : History F → Contents F
  unfolding find_row
  content h name res ts = Option.map stat_of (find_row h name res ts)

module _ (fl : Float) where
  open fl use {F, is_finite}

  -- One value, put at the raw resolution.
  unfoldable pub put_point : ℤ → Text → F → Contents F → Contents F
  put_point ts m v f name res t =
      if text_eq m name && eq_ℤ (pos raw) res && eq_ℤ ts t
      then some (record { avg = v; min = v; max = v; n = 1 })
      else f name res t

  -- The specification of a write: the finite points, one after the other.
  unfoldable pub put_points : ℤ → List (Text × F) → Contents F → Contents F
  unfolding put_point
  put_points ts [] f = f
  put_points ts ((m, v) ∷ points) f =
      let with_point = put_points ts points (put_point ts m v f) in
      let without = put_points ts points f in if is_finite v then with_point else without
