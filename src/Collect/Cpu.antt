-- ===== src/Collect/Cpu.antt =====
-- collect/docker.rs, `sample_stats`: the CPU share of a container from two one-shot readings.
use vm_vitals.Base.{
  ℕ, ◌-◌, ◌/◌, ◌≤◌, ◌<◌, ◌≡◌, refl, Bool, true, List, Option, none, some, arith, leb, if◌then◌else◌,
  and_then, unwrap_or, or_option, length,
}
use mathlib.Core.Option

-- `f64`, with what the function does to it. `sys_delta <= 0.0` is asked of a whole number.
pub record Float : Type 1 where
  pub F : Type 0
  pub of_ℕ : ℕ → F
  pub times : F → F → F
  pub divide : F → F → F
  pub is_finite : F → Bool
  pub clamp : F → F → F → F

pub record CpuSample : Type 0 where
  pub total : ℕ
  pub system : ℕ

-- What the function reads of a reply of the daemon.
pub record Stats : Type 0 where
  pub total_usage : ℕ
  pub system_cpu_usage : Option ℕ
  pub online_cpus : Option ℕ
  pub percpu_usage : Option (List ℕ)
  pub mem_usage : Option ℕ
  pub mem_limit : Option ℕ

-- `a.checked_sub(b)`.
unfoldable pub checked_sub : ℕ → ℕ → Option ℕ
checked_sub a b = if leb b a then some (a - b) else none

unfoldable pub cpu_count : Stats → ℕ
cpu_count s = unwrap_or (or_option s.online_cpus (Option.map length s.percpu_usage)) 1

module _ (fl : Float) where
  open fl use {F, of_ℕ, times, divide, is_finite, clamp}

  unfoldable pub share : ℕ → ℕ → ℕ → Option F
  share cpu_delta sys_delta ncpu =
      let pct = times (times (divide (of_ℕ cpu_delta) (of_ℕ sys_delta)) (of_ℕ ncpu)) (of_ℕ 100) in
      if leb sys_delta 0
      then none
      else if is_finite pct
      then some (clamp pct (of_ℕ 0) (times (of_ℕ ncpu) (of_ℕ 100)))
      else none

  unfoldable pub cpu_share : ℕ → ℕ → ℕ → Option CpuSample → Option F
  unfolding share checked_sub
  cpu_share total system ncpu prev = and_then prev λ p.
      and_then (checked_sub total p.total) λ cpu_delta.
        and_then (checked_sub system p.system) λ sys_delta. share cpu_delta sys_delta ncpu

  -- The share, the memory and its limit in MB, and the counters for the next tick. `none` for the
  -- reply is a time-out or an error.
  unfoldable pub sample_stats :
      Option CpuSample → Option Stats → Option (Option F × ℕ × Option ℕ × CpuSample)
  unfolding cpu_share cpu_count
  sample_stats prev reply = and_then reply λ s. and_then s.system_cpu_usage λ system. some (
    cpu_share s.total_usage system (cpu_count s) prev,
    unwrap_or s.mem_usage 0 / 1000000,
    Option.map (λ l. l / 1000000) s.mem_limit,
    record { total = s.total_usage; system = system },
  )

  -- A share is reported only with an earlier sample, when neither counter went back and the system
  -- counter went on; it is a clamped finite number, and never stands for "not known".
  pub cpu_share-some :
      (total system ncpu : ℕ) (prev : Option CpuSample) (v : F)
      → cpu_share total system ncpu prev ≡ some v
      → (p : CpuSample) × (prev ≡ some p)
        × (p.total ≤ total)
        × (p.system < system)
        × (let pct =
              times
                (times (divide (of_ℕ (total - p.total)) (of_ℕ (system - p.system))) (of_ℕ ncpu))
                (of_ℕ 100) in
            (is_finite pct ≡ true) × (v ≡ clamp pct (of_ℕ 0) (times (of_ℕ ncpu) (of_ℕ 100))))
  unfolding cpu_share
  cpu_share-some total system ncpu none v h = cc
  cpu_share-some total system ncpu (some p) v h =
      (p, refl, ground arith, ground arith, (ground arith, ground arith))
