-- ===== src/Tests/Loop.antt =====
-- The collector loop, with one container.
use vm_vitals.Base.{
  ℕ, ◌≡◌, refl, true, String, List, [], ◌∷◌, none, some, arith, Text, codes, strip_prefix, text_eq,
  Result, ok, err, get, insert, remove,
}
use mathlib.Core.Option
use vm_vitals.Base.Http.{Status}
use vm_vitals.Collect.Docker.{Daemon, collect_containers}
use vm_vitals.Collect.Snapshot.{Snapshot, published, collect_snapshot, with_limit}
use vm_vitals.Web.Health.{healthz, stale_after}
use vm_vitals.Store.Table.{try_write, write_points, end_write, metric_id, intern, id_of, put_sample}
use vm_vitals.Main.Points.{HostFigures, sample_points, container_points}
use vm_vitals.Main.Loop.{
  Transport, Tick, Loop, connect_docker, reconnect, ask_docker, take_snapshot, collect_and_write,
  tick, start,
}
use vm_vitals.Main.Loop.Recovery.{tick-recovers}
use vm_vitals.Tests.Surface.{whole}
use vm_vitals.Tests.Tables.{smooth, counts}
use vm_vitals.Tests.Store.{fresh_id, fresh_id-IsFresh, opened, opened-Reach, whole_run}
use vm_vitals.Tests.Toy.{toy}
use vm_vitals.Tests.Accounts.{claimed}
use vm_vitals.Main.Daemon.{Task, collects, compacts, sweeps, run_task, run_tasks, launch}
use vm_vitals.Main.Daemon.Quiet.{is_lost, run_tasks-Sound}
use vm_vitals.Store.Compact.Run.{try_compact, all_execute}
use vm_vitals.Store.Table.Sound.{Sound}
use vm_vitals.Main.Loop.{try_connect, write_log, docker_log}
use vm_vitals.Tests.Views.{web_listed}

-- A client is a number.
abbrev pub connects_to : ℕ → Transport → Text → Result ℕ String
connects_to d transport endpoint = ok d

abbrev pub no_daemon : Daemon
no_daemon = record {
  listed = err "no such file";
  inspect_container = λ key. none;
  stats = λ key. none;
  in_time = true;
}

abbrev pub one_web : Daemon
one_web = record {
  listed = ok (web_listed ∷ []);
  inspect_container = λ key. none;
  stats = λ key. none;
  in_time = true;
}

abbrev pub quiet : HostFigures ℕ
quiet = record { cpu_pct = 5; mem_used_pct = 40; disk_used_pct = 60; load1 = 1; swap_used_mb = 0 }

abbrev pub turn_of : Daemon → ℕ → Tick ℕ whole
turn_of daemon now = record {
  connect = connects_to 7;
  daemon = λ d. daemon;
  arrives = λ rs. rs;
  now = now;
  host = quiet;
  run = smooth;
}

abbrev pub socket : Text
socket = codes "/var/run/docker.sock"

tick-recovers_example :
    let after =
      tick whole fresh_id socket 15
        (turn_of one_web 45)
        (tick whole fresh_id socket 15 (turn_of no_daemon 30) (start whole opened)).0 in
    (healthz 60 60 (Option.map published after.0.snapshot)).0 ≡ Status.ok
unfolding connect_docker stale_after strip_prefix
tick-recovers_example =
    tick-recovers whole fresh_id socket 15 (turn_of no_daemon 30) (turn_of one_web 45)
      (start whole opened) 7 60 60 (record { reason = "no such file"; down = λ d. refl }) refl
      (record { list = web_listed ∷ []; lists = refl; in_time = refl }) (omega arith)

abbrev first_turn : Loop ℕ whole
first_turn = (tick whole fresh_id socket 15 (turn_of no_daemon 30) (start whole opened)).0

-- The snapshot of the first turn_of: no Docker.
abbrev pub bare : Snapshot (HostFigures ℕ) ℕ
bare = record {
  ts = 30;
  host = quiet;
  containers = [];
  docker_error = some (codes "no such file");
  stale_after_secs = 45;
}

-- A turn of each task.
abbrev tasks : List (Task ℕ toy whole)
tasks = compacts whole_run 15 ∷ sweeps 20 ∷ collects (turn_of no_daemon 30) ∷ []

run_tasks-Sound_example :
    Sound
      (run_tasks toy whole fresh_id counts socket 15 tasks
        (launch toy whole opened.tables (some claimed))).0.loop.history
unfolding run_tasks run_task launch tick reconnect try_connect connect_docker strip_prefix
    collect_and_write take_snapshot ask_docker collect_containers collect_snapshot with_limit
    stale_after start sample_points container_points try_write write_points end_write metric_id get
    intern id_of put_sample insert text_eq remove try_compact all_execute write_log docker_log
    is_lost
run_tasks-Sound_example =
    run_tasks-Sound toy whole fresh_id counts fresh_id-IsFresh socket 15 tasks true opened
      (some claimed) opened-Reach refl
