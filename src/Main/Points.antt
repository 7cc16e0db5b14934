-- ===== src/Main/Points.antt =====
-- main.rs, `sample_points`: a snapshot as pairs of a metric and a value.
pub mod Distinct
use vm_vitals.Collect.Host.{HostMetrics}
use vm_vitals.Base.{
  ℕ, ◌≡◌, refl, ◌≢◌, String, List, [], ◌∷◌, ◌++◌, Option, none, some, arith, Text, codes, All,
}
use mathlib.Core.Option
use vm_vitals.Collect.Cpu.{Float}
use vm_vitals.Collect.Docker.{Container}
use vm_vitals.Collect.Snapshot.{Snapshot}

-- What the function reads of the host, each value cast to `f64`.
pub record HostFigures (F : Type 0) : Type 0 where
  pub cpu_pct : F
  pub mem_used_pct : F
  pub disk_used_pct : F
  pub load1 : F
  pub swap_used_mb : F

-- The host's figures as `f64`: `widen` is the cast from `f32`.
unfoldable pub host_figures : {G F : Type 0} → (G → F) → (ℕ → F) → HostMetrics G F → HostFigures F
host_figures widen of_ℕ m = record {
  cpu_pct = widen m.cpu_pct;
  mem_used_pct = widen m.mem_used_pct;
  disk_used_pct = widen m.disk_used_pct;
  load1 = m.load1;
  swap_used_mb = of_ℕ m.swap_used_mb;
}

-- `format!("c\u{1}{}\u{1}cpu", c.name)`, and so for `mem`.
unfoldable pub container_key : Text → String → Text
container_key name metric = b'c' ∷ 1 ∷ (name ++ (1 ∷ codes metric))

module _ (fl : Float) where
  open fl use {F, of_ℕ}

  unfoldable pub point : Text → String → Option F → List (Text × F)
  unfolding container_key
  point name metric none = []
  point name metric (some v) = (container_key name metric, v) ∷ []

  unfoldable pub container_points : List (Container F) → List (Text × F)
  unfolding point
  container_points [] = []
  container_points (c ∷ cs) =
      point c.name "cpu" c.cpu_pct
      ++ (point c.name "mem" (Option.map of_ℕ c.mem_mb) ++ container_points cs)

  unfoldable pub sample_points : Snapshot (HostFigures F) F → List (Text × F)
  unfolding container_points
  sample_points s =
      (codes "host.cpu", s.host.cpu_pct)
      ∷ (codes "host.mem", s.host.mem_used_pct)
      ∷ (codes "host.disk", s.host.disk_used_pct)
      ∷ (codes "host.load", s.host.load1)
      ∷ (codes "host.swap", s.host.swap_used_mb)
      ∷ container_points s.containers

-- A name without the character U+0001.
abbrev pub IsName : Text → Type 0
IsName = All (λ x. x ≢ 1)

split_at_mark :
    (m n s t : Text) → IsName m → IsName n → m ++ (1 ∷ s) ≡ n ++ (1 ∷ t) → (m ≡ n) × (s ≡ t)
split_at_mark [] [] s t p q h = (refl, cc)
split_at_mark [] (y ∷ n) s t p q h = absurd (q.0 (ground arith))
split_at_mark (x ∷ m) [] s t p q h = absurd (p.0 (ground arith))
split_at_mark (x ∷ m) (y ∷ n) s t p q h =
    let (e, f) = split_at_mark m n s t p.1 q.1 (ground arith) in (ground arith, f)

-- The keys of the store tell containers and metrics apart: equal keys come from the same name, as long
-- as no name has the separator, and from the same metric.
pub container_key-injective :
    (m n : Text) (s t : String)
    → IsName m
    → IsName n
    → container_key m s ≡ container_key n t
    → (m ≡ n) × (codes s ≡ codes t)
unfolding container_key
container_key-injective m n s t p q h = split_at_mark m n (codes s) (codes t) p q (ground arith)
