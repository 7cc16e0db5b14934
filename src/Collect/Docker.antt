-- ===== src/Collect/Docker.antt =====
-- collect/docker.rs, `DockerCollector::collect`: the containers of one tick, and the samples that are
-- kept for the next. What the daemon answers, and the order in which the calls finish, are
-- parameters.
pub mod Readings
use vm_vitals.Base.{
  ℕ, zero, suc, ◌==◌, ◌≡◌, Bool, true, false, String, List, [], ◌∷◌, map, Option, none, some,
  if◌then◌else◌, unwrap_or, and_then, is_empty, take, Text, codes, text_eq, Map, get, insert,
  Result, ok, err,
}
use mathlib.Core.Option
use vm_vitals.Base.Int.{ℤ}
use vm_vitals.Collect.Cpu.{Float, CpuSample, Stats, sample_stats}

-- An entry of the list of containers.
pub record Listed : Type 0 where
  pub id : Option Text
  pub names : Option (List Text)
  pub image : Option Text
  pub state : Option Text
  pub status : Option Text

-- What the function reads of an inspection; the health is already in lower-case letters.
pub record Inspected : Type 0 where
  pub restart_count : Option ℤ
  pub health : Option Text

-- The daemon during one tick. `listed` is an error also when it timed out; `none` of the others is a
-- time-out or an error; `in_time` is whether all of them end within the budget.
pub record Daemon : Type 0 where
  pub listed : Result (List Listed) String
  pub inspect_container : Text → Option Inspected
  pub stats : Text → Option Stats
  pub in_time : Bool

-- `Container` of collect/mod.rs, with `F` for its float.
pub record Container (F : Type 0) : Type 0 where
  pub name : Text
  pub image : Text
  pub state : Text
  pub status : Text
  pub health : Option Text
  pub restarts : Option ℤ
  pub cpu_pct : Option F
  pub mem_mb : Option ℕ
  pub mem_limit_mb : Option ℕ

pub record Reading (F : Type 0) : Type 0 where
  pub container : Container F
  pub key : Text
  pub sample : Option CpuSample

-- `n.trim_start_matches('/')`.
unfoldable pub trim_slashes : Text → Text
trim_slashes [] = []
trim_slashes (x ∷ s) = if x == b'/' then trim_slashes s else x ∷ s

first_name : List Text → Option Text
first_name [] = none
first_name (n ∷ ns) = some n

unfoldable pub container_name : Listed → Text
unfolding trim_slashes first_name
container_name c =
    unwrap_or (Option.map trim_slashes (and_then c.names first_name)) (take 12 (unwrap_or c.id []))

-- A container is addressed by its id, and by its name only where it has none.
unfoldable pub container_address : Listed → Text
unfolding container_name
container_address c = let id = unwrap_or c.id [] in if is_empty id then container_name c else id

unfoldable pub is_running : Listed → Bool
is_running c = text_eq (unwrap_or c.state []) (codes "running")

module _ (fl : Float) where
  open fl use {F}

  -- The figures of a container, and the sample that is kept.
  unfoldable pub figures :
      Option (Option F × ℕ × Option ℕ × CpuSample)
      → Option F × Option ℕ × Option ℕ × Option CpuSample
  figures none = (none, none, none, none)
  figures (some (c, m, l, s)) = (c, some m, l, some s)

  unfoldable pub read_stats :
      Daemon → Map CpuSample → Listed → Option F × Option ℕ × Option ℕ × Option CpuSample
  unfolding figures sample_stats
  read_stats d prev c =
      let key = container_address c in
      if is_running c
      then figures (sample_stats fl (get key prev) (d.stats key))
      else (none, none, none, none)

  -- The future of one container.
  unfoldable pub read_container : Daemon → Map CpuSample → Listed → Reading F
  unfolding read_stats
  read_container d prev c =
      let key = container_address c in
      let det = d.inspect_container key in
      let (cpu_pct, mem_mb, mem_limit_mb, sample) = read_stats d prev c in
      record {
        container = record {
          name = container_name c;
          image = unwrap_or c.image [];
          state = unwrap_or c.state [];
          status = unwrap_or c.status [];
          health = and_then det (λ i. i.health);
          restarts = and_then det (λ i. i.restart_count);
          cpu_pct = cpu_pct;
          mem_mb = mem_mb;
          mem_limit_mb = mem_limit_mb;
        };
        key = key;
        sample = sample;
      }

  unfoldable pub keep_sample : Text → Option CpuSample → Map CpuSample → Map CpuSample
  keep_sample key none next = next
  keep_sample key (some s) next = insert key s next

  -- The loop over the results, as to `next`.
  unfoldable pub keep_samples : Map CpuSample → List (Reading F) → Map CpuSample
  unfolding keep_sample
  keep_samples next [] = next
  keep_samples next (r ∷ rs) = keep_samples (keep_sample r.key r.sample next) rs

  finish_collect : List (Reading F) → Map CpuSample × Result (List (Container F)) String
  unfolding keep_samples
  finish_collect results = (keep_samples [] results, ok (map (λ r. r.container) results))

  read_all :
      (List (Reading F) → List (Reading F))
      → Daemon
      → Map CpuSample
      → Result (List Listed) String
      → Map CpuSample × Result (List (Container F)) String
  unfolding finish_collect read_container
  read_all arrives d prev (err e) = (prev, err e)
  read_all arrives d prev (ok list) =
      if d.in_time
      then finish_collect (arrives (map (read_container d prev) list))
      else (prev, err "container collection exceeded its budget")

  -- `prev` before and after, and the containers. `arrives` puts the readings in the order in which
  -- `buffer_unordered` yields them.
  unfoldable pub collect_containers :
      (List (Reading F) → List (Reading F))
      → Daemon
      → Map CpuSample
      → Map CpuSample × Result (List (Container F)) String
  unfolding read_all
  collect_containers arrives d prev = read_all arrives d prev d.listed
