-- ===== src/Main/Loop/Recovery.antt =====
-- main.rs, the collector loop: losing Docker and finding it again.
use mathlib.Core.Option
use vm_vitals.Base.{
  ℕ, ◌+◌, ◌≤◌, ◌≡◌, refl, ◌↔◌, inl, inr, true, String, List, Option, none, some, is_some, arith,
  if◌then◌else◌, Option-cases, Text, Map, ok, err,
}
use vm_vitals.Base.Http.{Status}
use vm_vitals.Collect.Cpu.{Float, CpuSample}
use vm_vitals.Collect.Docker.{Listed, Container, collect_containers}
use vm_vitals.Collect.Snapshot.{
  Snapshot, containers_or_error, collect_snapshot, with_limit, published,
}
use vm_vitals.Web.Health.{healthz, healthz_iff, stale_after}
use vm_vitals.Main.Points.{HostFigures}
use vm_vitals.Main.Loop.{
  Tick, Loop, connect_docker, reconnect, ask_docker, take_snapshot, collect_and_write, tick,
}

module _ {Client : Type 0} (fl : Float) where
  open fl use {F}

  -- The daemon lists its containers, and all of them are read within the budget.
  pub record Works (t : Tick Client fl) (d : Client) : Type 0 where
    pub list : List Listed
    pub lists : (t.daemon d).listed ≡ ok list
    pub in_time : (t.daemon d).in_time ≡ true

  -- No client gets a list in this tick.
  pub record Outage (t : Tick Client fl) : Type 0 where
    pub reason : String
    pub down : (d : Client) → (t.daemon d).listed ≡ err reason

  ask_docker-listed :
      (t : Tick Client fl) (d : Client) (prev : Map CpuSample)
      → Works t d
      → (list : List (Container F)) × ((ask_docker fl t (some d) prev).1 ≡ some (ok list))
  unfolding ask_docker collect_containers
  ask_docker-listed t d prev w = rw (w.lists, w.in_time) (_, refl)

  ask_docker-down :
      (t : Tick Client fl) (d : Client) (prev : Map CpuSample) (e : String)
      → (t.daemon d).listed ≡ err e
      → (ask_docker fl t (some d) prev).1 ≡ some (err e)
  unfolding ask_docker collect_containers
  ask_docker-down t d prev e h = rw h refl

  Outage-docker_error :
      (t : Tick Client fl) (docker : Option Client) (prev : Map CpuSample)
      → Outage t
      → is_some (containers_or_error (ask_docker fl t docker prev).1).1 ≡ true
  Outage-docker_error t none prev o = unfold containers_or_error ask_docker in refl
  Outage-docker_error t (some d) prev o =
      rw (ask_docker-down t d prev o.reason (o.down d)) (unfold containers_or_error in refl)

  kept_client :
      (t : Tick Client fl) (docker : Option Client) (prev : Map CpuSample)
      → let error = (containers_or_error (ask_docker fl t docker prev).1).1 in
        (is_some (if is_some error then none else docker) ≡ true) ↔ (error ≡ none)
  kept_client t none prev =
      unfold ask_docker containers_or_error in
      (λ h. absurd (ground arith), λ h. absurd (ground arith))
  kept_client t (some d) prev =
      elim (Option-cases (containers_or_error (ask_docker fl t (some d) prev).1).1) [
        | inl e ↦ rw e (λ h. refl, λ h. refl)
        | inr (x, e) ↦ rw e (λ h. absurd (ground arith), λ h. absurd (ground arith))
      ]

  connects :
      (socket : Text) (t : Tick Client fl) (l : Loop Client fl) (d : Client)
      → l.docker ≡ none
      → connect_docker t.connect socket ≡ ok d
      → (reconnect fl socket t l).0.docker ≡ some d
  unfolding reconnect
  connects socket t l d n c = rw (n, c) refl

module _ {Client : Type 0} (fl : Float) (rowid : List (ℕ × Text) → ℕ) where
  open fl use {F}

  -- After a tick there is a snapshot of that tick, and there is a client exactly when the snapshot has
  -- no Docker error: a client that failed is not used again.
  pub tick-docker :
      (socket : Text) (tick_secs : ℕ) (t : Tick Client fl) (l : Loop Client fl)
      → let after = (tick fl rowid socket tick_secs t l).0 in
        (s : Snapshot (HostFigures F) F) × (after.snapshot ≡ some s)
        × (s.ts ≡ t.now)
        × (s.stale_after_secs ≡ stale_after tick_secs)
        × ((is_some after.docker ≡ true) ↔ (s.docker_error ≡ none))
  unfolding tick collect_and_write take_snapshot collect_snapshot with_limit
  tick-docker socket tick_secs t l =
      let l' = (reconnect fl socket t l).0 in
      (_, refl, refl, refl, kept_client fl t l'.docker l'.prev)

  Outage-docker :
      (socket : Text) (tick_secs : ℕ) (t : Tick Client fl) (l : Loop Client fl)
      → Outage fl t
      → (tick fl rowid socket tick_secs t l).0.docker ≡ none
  unfolding tick collect_and_write take_snapshot collect_snapshot with_limit
  Outage-docker socket tick_secs t l o =
      let l' = (reconnect fl socket t l).0 in rw (Outage-docker_error fl t l'.docker l'.prev o) refl

  Works-published :
      (socket : Text) (tick_secs : ℕ) (t : Tick Client fl) (l : Loop Client fl) (d : Client)
      → l.docker ≡ none
      → connect_docker t.connect socket ≡ ok d
      → Works fl t d
      → Option.map published (tick fl rowid socket tick_secs t l).0.snapshot
        ≡ some
            (record { ts = t.now; docker_error = none; stale_after_secs = stale_after tick_secs })
  unfolding tick collect_and_write take_snapshot collect_snapshot with_limit published
  Works-published socket tick_secs t l d n c w =
      let l' = (reconnect fl socket t l).0 in
      let (list, e) = ask_docker-listed fl t d l'.prev w in
      rw (connects fl socket t l d n c, e) (unfold containers_or_error in refl)

  -- The monitor recovers by itself. Whatever its state, when Docker answers no client in one tick,
  -- and in the next the connection succeeds and the daemon lists its containers in time, then the
  -- health check answers 200, as long as the snapshot is not older than its limit.
  pub tick-recovers :
      (socket : Text) (tick_secs : ℕ) (t t' : Tick Client fl) (l : Loop Client fl) (d : Client)
      (now now' : ℕ)
      → Outage fl t
      → connect_docker t'.connect socket ≡ ok d
      → Works fl t' d
      → now ≤ t'.now + stale_after tick_secs
      → let after = tick fl rowid socket tick_secs t' (tick fl rowid socket tick_secs t l).0 in
        (healthz now now' (Option.map published after.0.snapshot)).0 ≡ Status.ok
  tick-recovers socket tick_secs t t' l d now now' o c w recent =
      let l' = (tick fl rowid socket tick_secs t l).0 in
      (healthz_iff now now'
          (Option.map published (tick fl rowid socket tick_secs t' l').0.snapshot)).0.1
        (record {
          last = record {
            ts = t'.now;
            docker_error = none;
            stale_after_secs = stale_after tick_secs;
          };
          published =
              Works-published socket tick_secs t' l' d (Outage-docker socket tick_secs t l o) c w;
          recent = recent;
          sees_docker = refl;
        })
