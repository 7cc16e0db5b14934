-- ===== src/Main/Loop.antt =====
-- main.rs, `connect_docker` and the collector loop of `run`: one tick, with its client of Docker, the
-- warning that is given once, the published snapshot and the history. The crate that connects, the
-- daemon, the host and SQLite are parameters of a tick. A write whose task panics is not modelled.
pub mod Recovery
pub mod Warnings
pub mod Stored
use vm_vitals.Base.{
  ℕ, ◌≡◌, Bool, true, false, ◌||◌, String, List, [], ◌∷◌, ◌++◌, Option, none, some, is_some,
  if◌then◌else◌, Text, codes, strip_prefix, Map, Result, ok, err,
}
use vm_vitals.Collect.Cpu.{Float, CpuSample}
use vm_vitals.Collect.Docker.{Daemon, Container, Reading, collect_containers}
use vm_vitals.Collect.Snapshot.{Snapshot, collect_snapshot, with_limit}
use vm_vitals.Store.Table.{History, SqlRun, try_write}
use vm_vitals.Main.Points.{HostFigures, sample_points}

-- How a client reaches the daemon.
pub data Transport : Type 0 where
  over_http : Transport
  over_unix : Transport

unfoldable pub starts_with : Text → Text → Bool
starts_with p s = is_some (strip_prefix p s)

unfoldable pub connect_docker :
    {Client : Type 0} → (Transport → Text → Result Client String) → Text → Result Client String
unfolding starts_with
connect_docker connect endpoint =
    if starts_with (codes "tcp://") endpoint || starts_with (codes "http://") endpoint
    then connect over_http endpoint
    else connect over_unix endpoint

-- What the loop logs.
pub data Event : Type 0 where
  connected : Event
  no_docker : String → Event
  docker_failed : Text → Event
  write_failed : String → Event

unfoldable pub write_log : Result (Unit {0}) String → List Event
write_log (ok u) = []
write_log (err e) = write_failed e ∷ []

module _ (Client : Type 0) (fl : Float) where
  open fl use {F}

  -- What a tick meets: the crate that connects, the daemon of a client, the order in which its answers
  -- arrive, the time, the host, and SQLite.
  pub record Tick : Type 0 where
    pub connect : Transport → Text → Result Client String
    pub daemon : Client → Daemon
    pub arrives : List (Reading F) → List (Reading F)
    pub now : ℕ
    pub host : HostFigures F
    pub run : SqlRun

  -- The variables of the loop, and what it shares.
  pub record Loop : Type 0 where
    pub docker : Option Client
    pub warned : Bool
    pub prev : Map CpuSample
    pub snapshot : Option (Snapshot (HostFigures F) F)
    pub history : History F

module _ {Client : Type 0} (fl : Float) where
  open fl use {F}

  unfoldable pub try_connect : Result Client String → Loop Client fl → Loop Client fl × List Event
  try_connect (ok d) l = (record l { docker = some d; warned = false }, connected ∷ [])
  try_connect (err e) l =
      if l.warned then (l, []) else (record l { warned = true }, no_docker e ∷ [])

  -- `if docker.is_none()`.
  unfoldable pub reconnect : Text → Tick Client fl → Loop Client fl → Loop Client fl × List Event
  unfolding try_connect connect_docker
  reconnect socket t l =
      if is_some l.docker then (l, []) else try_connect (connect_docker t.connect socket) l

  -- The samples that are kept, and what there is of the containers.
  unfoldable pub ask_docker :
      Tick Client fl
      → Option Client
      → Map CpuSample
      → Map CpuSample × Option (Result (List (Container F)) String)
  ask_docker t none prev = (prev, none)
  ask_docker t (some d) prev =
      let (prev', list) = collect_containers fl t.arrives (t.daemon d) prev in (prev', some list)

  -- The snapshot of a tick, its limit included.
  unfoldable pub take_snapshot :
      ℕ → Tick Client fl → Loop Client fl → Map CpuSample × Snapshot (HostFigures F) F
  unfolding ask_docker collect_snapshot with_limit
  take_snapshot tick_secs t l =
      let (prev, docker) = ask_docker t l.docker l.prev in
      (prev, with_limit tick_secs (collect_snapshot t.now t.host docker))

  unfoldable pub docker_log : Option Client → Option Text → List Event
  docker_log (some d) (some e) = docker_failed e ∷ []
  docker_log (some d) none = []
  docker_log none e = []

module _ {Client : Type 0} (fl : Float) (rowid : List (ℕ × Text) → ℕ) where
  open fl use {F}

  -- After the reconnection: collect, drop a client that failed, publish, and write.
  unfoldable pub collect_and_write :
      ℕ → Tick Client fl → Loop Client fl → Loop Client fl × List Event
  unfolding take_snapshot sample_points write_log docker_log
  collect_and_write tick_secs t l =
      let (prev, snap) = take_snapshot fl tick_secs t l in
      let (history, written) = try_write fl rowid t.run snap.ts (sample_points fl snap) l.history in
      (
        record l {
          docker = if is_some snap.docker_error then none else l.docker;
          prev = prev;
          snapshot = some snap;
          history = history;
        },
        docker_log fl l.docker snap.docker_error ++ write_log written,
      )

  -- One turn of the loop.
  unfoldable pub tick : Text → ℕ → Tick Client fl → Loop Client fl → Loop Client fl × List Event
  unfolding reconnect collect_and_write
  tick socket tick_secs t l =
      let (l', events) = reconnect fl socket t l in
      let (l'', events') = collect_and_write tick_secs t l' in (l'', events ++ events')

  -- Several turns, and all that is logged.
  unfoldable pub ticks :
      Text → ℕ → List (Tick Client fl) → Loop Client fl → Loop Client fl × List Event
  unfolding tick
  ticks socket tick_secs [] l = (l, [])
  ticks socket tick_secs (t ∷ ts) l =
      let (l', events) = tick socket tick_secs t l in
      let (l'', events') = ticks socket tick_secs ts l' in (l'', events ++ events')

-- The loop before its first turn.
unfoldable pub start : {Client : Type 0} (fl : Float) → History fl.F → Loop Client fl
start fl h = record { docker = none; warned = false; prev = []; snapshot = none; history = h }
