-- ===== src/Collect/Snapshot.antt =====
-- collect/mod.rs, `collect`, and main.rs, the snapshot that the collector loop publishes.
use vm_vitals.Base.{
  ℕ, ◌≡◌, refl, String, List, [], Option, none, some, arith, Text, codes, Result, ok, err,
}
use vm_vitals.Base.Http.{Status}
use vm_vitals.Web.Health.{Published, healthz, healthz_iff, stale_after}
use vm_vitals.Collect.Docker.{Container}

-- `Snapshot` of collect/mod.rs; `Host` are the figures of the host.
pub record Snapshot (Host F : Type 0) : Type 0 where
  pub ts : ℕ
  pub host : Host
  pub containers : List (Container F)
  pub docker_error : Option Text
  pub stale_after_secs : ℕ

module _ {F : Type 0} where
  -- The containers, and why there are none. `none` is a Docker that is not connected.
  unfoldable pub containers_or_error :
      Option (Result (List (Container F)) String) → List (Container F) × Option Text
  containers_or_error none = ([], some (codes "docker not connected"))
  containers_or_error (some (ok list)) = (list, none)
  containers_or_error (some (err e)) = ([], some (codes e))

  unfoldable pub collect_snapshot :
      {Host : Type 0} → ℕ → Host → Option (Result (List (Container F)) String) → Snapshot Host F
  unfolding containers_or_error
  collect_snapshot ts host docker =
      let (containers, docker_error) = containers_or_error docker in
      record {
        ts = ts;
        host = host;
        containers = containers;
        docker_error = docker_error;
        stale_after_secs = 0;
      }

  -- The loop sets the limit from the interval.
  unfoldable pub with_limit : {Host : Type 0} → ℕ → Snapshot Host F → Snapshot Host F
  with_limit tick_secs s = record s { stale_after_secs = stale_after tick_secs }

  -- What `healthz` reads of it.
  unfoldable pub published : {Host : Type 0} → Snapshot Host F → Published
  published s = record {
    ts = s.ts;
    docker_error = s.docker_error;
    stale_after_secs = s.stale_after_secs;
  }

  containers_or_error-none :
      (docker : Option (Result (List (Container F)) String))
      → (containers_or_error docker).1 ≡ none
      → (list : List (Container F)) × (docker ≡ some (ok list))
  unfolding containers_or_error
  containers_or_error-none none h = absurd (ground arith)
  containers_or_error-none (some (ok list)) h = (list, refl)
  containers_or_error-none (some (err e)) h = absurd (ground arith)

  -- When the health check answers 200 to the snapshot of a tick, Docker was connected and listed the
  -- containers, which are those of the snapshot: a monitor that cannot see Docker is never healthy.
  pub collect_snapshot-healthz :
      {Host : Type 0} (ts tick_secs now now' : ℕ) (host : Host)
      (docker : Option (Result (List (Container F)) String))
      → (healthz now now'
          (some (published (with_limit tick_secs (collect_snapshot ts host docker))))).0
        ≡ Status.ok
      → (list : List (Container F)) × (docker ≡ some (ok list))
        × ((collect_snapshot ts host docker).containers ≡ list)
  unfolding published with_limit collect_snapshot
  collect_snapshot-healthz ts tick_secs now now' host docker h =
      let f =
        (healthz_iff now now'
            (some (published (with_limit tick_secs (collect_snapshot ts host docker))))).0.0
          h in
      let (list, e) =
        containers_or_error-none docker (ground (arith, f.published, f.sees_docker)) in
      (list, e, rw e refl)
