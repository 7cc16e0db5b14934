-- ===== src/Collect/Host.antt =====
-- collect/host.rs, `HostCollector::collect`: the figures of the host. What `sysinfo` reads after its
-- refresh is a parameter, and so are the two float types.
use vm_vitals.Base.{
  ℕ, ◌-◌, ◌/◌, ◌≤◌, ◌<◌, ◌^◌, ◌≡◌, true, List, [], ◌∷◌, Option, none, some, arith, ltb,
  if◌then◌else◌, unwrap_or, All, Bool-cases, inl, inr, Text, codes, text_eq,
}
use vm_vitals.Collect.Cpu.{Float}

pub record HostDisk : Type 0 where
  pub mount_point : Text
  pub total_space : ℕ
  pub available_space : ℕ

-- What `sysinfo` says; `cpu_usage` is an `f32`, the load averages are `f64`.
pub record System (G F : Type 0) : Type 0 where
  pub cpu_usage : G
  pub total_memory : ℕ
  pub available_memory : ℕ
  pub used_swap : ℕ
  pub disks : List HostDisk
  pub host_name : Option Text
  pub load_one : F
  pub load_five : F
  pub load_fifteen : F
  pub uptime : ℕ

pub record HostMetrics (G F : Type 0) : Type 0 where
  pub hostname : Text
  pub cpu_pct : G
  pub mem_total_mb : ℕ
  pub mem_avail_mb : ℕ
  pub mem_used_pct : G
  pub swap_used_mb : ℕ
  pub disk_total_gb : F
  pub disk_avail_gb : F
  pub disk_used_pct : G
  pub load1 : F
  pub load5 : F
  pub load15 : F
  pub uptime_secs : ℕ

-- The disk of `/`, by the first mount point that is it.
unfoldable pub root_disk : List HostDisk → Option HostDisk
root_disk [] = none
root_disk (d ∷ disks) = if text_eq d.mount_point (codes "/") then some d else root_disk disks

unfoldable pub disk_spaces : Option HostDisk → ℕ × ℕ
disk_spaces none = (0, 0)
disk_spaces (some d) = (d.total_space, d.available_space)

module _ (single : Float) where
  open single use {F, of_ℕ, times, divide}

  -- `(total.saturating_sub(avail) as f32 / total as f32) * 100.0`, and 0 of nothing.
  unfoldable pub used_pct : ℕ → ℕ → F
  used_pct total avail =
      if ltb 0 total then times (divide (of_ℕ (total - avail)) (of_ℕ total)) (of_ℕ 100) else of_ℕ 0

  unfoldable pub finite_or_zero : F → F
  finite_or_zero v = if single.is_finite v then v else of_ℕ 0

module _ (single double : Float) where
  unfoldable pub collect_host : System single.F double.F → HostMetrics single.F double.F
  unfolding used_pct finite_or_zero root_disk disk_spaces
  collect_host s =
      let (disk_total, disk_avail) = disk_spaces (root_disk s.disks) in
      record {
        hostname = unwrap_or s.host_name (codes "host");
        cpu_pct = finite_or_zero single s.cpu_usage;
        mem_total_mb = s.total_memory / 1000000;
        mem_avail_mb = s.available_memory / 1000000;
        mem_used_pct = used_pct single s.total_memory s.available_memory;
        swap_used_mb = s.used_swap / 1000000;
        disk_total_gb = double.divide (double.of_ℕ disk_total) (double.of_ℕ 1000000000);
        disk_avail_gb = double.divide (double.of_ℕ disk_avail) (double.of_ℕ 1000000000);
        disk_used_pct = used_pct single disk_total disk_avail;
        load1 = s.load_one;
        load5 = s.load_five;
        load15 = s.load_fifteen;
        uptime_secs = s.uptime;
      }

-- What the collector relies on of `f32`: a whole number is finite, and so is a share of at most the
-- whole, as a percentage.
pub record IsPercentable (single : Float) : Type 0 where
  pub whole : (a : ℕ) → a < 2 ^ 64 → single.is_finite (single.of_ℕ a) ≡ true
  pub percent :
      (a b : ℕ)
      → a ≤ b
      → 0 < b
      → b < 2 ^ 64
      → single.is_finite
          (single.times (single.divide (single.of_ℕ a) (single.of_ℕ b)) (single.of_ℕ 100))
        ≡ true

-- The readings are `u64`.
pub record InRange {G F : Type 0} (s : System G F) : Type 0 where
  pub memory : s.total_memory < 2 ^ 64
  pub disks : All (λ d. d.total_space < 2 ^ 64) s.disks

module _ (single : Float) (laws : IsPercentable single) where
  used_pct-is_finite :
      (total avail : ℕ) → total < 2 ^ 64 → single.is_finite (used_pct single total avail) ≡ true
  unfolding used_pct
  used_pct-is_finite total avail w = elim (Bool-cases (ltb 0 total)) [
    | inl e ↦ rw e (laws.percent (total - avail) total (omega arith) (ground arith) w)
    | inr e ↦ rw e (laws.whole 0 (omega arith))
  ]

  finite_or_zero-is_finite : (v : single.F) → single.is_finite (finite_or_zero single v) ≡ true
  unfolding finite_or_zero
  finite_or_zero-is_finite v = elim (Bool-cases (single.is_finite v)) [
    | inl e ↦ rw e e
    | inr e ↦ rw e (laws.whole 0 (omega arith))
  ]

disk_spaces-small :
    (disks : List HostDisk)
    → All (λ d. d.total_space < 2 ^ 64) disks
    → (disk_spaces (root_disk disks)).0 < 2 ^ 64
unfolding disk_spaces root_disk
disk_spaces-small [] all = omega arith
disk_spaces-small (d ∷ disks) all = elim (Bool-cases (text_eq d.mount_point (codes "/"))) [
  | inl e ↦ rw e all.0
  | inr e ↦ rw e (disk_spaces-small disks all.1)
]

-- Whatever the host reads within u64, a host without a disk at `/`, without memory, or whose
-- processor usage is not a number included, the percentages are finite: the processor's, the
-- memory's and the disk's. Of `f32` it is assumed that whole numbers and shares of at most a whole
-- are finite.
pub collect_host-is_finite :
    (single double : Float) (s : System single.F double.F)
    → IsPercentable single
    → InRange s
    → (single.is_finite (collect_host single double s).cpu_pct ≡ true)
      × (single.is_finite (collect_host single double s).mem_used_pct ≡ true)
      × (single.is_finite (collect_host single double s).disk_used_pct ≡ true)
unfolding collect_host
collect_host-is_finite single double s laws r = (
  finite_or_zero-is_finite single laws s.cpu_usage,
  used_pct-is_finite single laws s.total_memory s.available_memory r.memory,
  used_pct-is_finite single laws _ _ (disk_spaces-small s.disks r.disks),
)
