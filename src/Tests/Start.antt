-- ===== src/Tests/Start.antt =====
-- The start of the daemon, a tick, and what is answered then.
use mathlib.Core.Option
use vm_vitals.Base.{
  ℕ, ◌≡◌, refl, true, String, List, [], Option, none, some, arith, All, Text, codes, ok, text_eq,
  get, insert, remove, take, strip_prefix, as_bytes, trim, encode_char, Result,
}
use vm_vitals.Base.Int.{pos}
use vm_vitals.Base.Http.{Status}
use vm_vitals.Auth.State.{AuthState}
use vm_vitals.Auth.Persist.{new, load_store}
use vm_vitals.Config.{Raw, Config, load, web_token}
use vm_vitals.Collect.Docker.{collect_containers}
use vm_vitals.Collect.Snapshot.{collect_snapshot, with_limit}
use vm_vitals.Web.Health.{stale_after}
use vm_vitals.Web.Router.{security_headers}
use vm_vitals.Web.App.{points, serve}
use vm_vitals.Web.App.Served.{series_route}
use vm_vitals.Store.Buckets.{raw}
use vm_vitals.Store.Open.{File, absent, migrate, open_store, tables_of}
use vm_vitals.Store.Table.{
  Row, columns, as_i64, try_write, write_points, end_write, metric_id, intern, id_of, put_sample,
}
use vm_vitals.Store.Table.Answer.{row_on}
use vm_vitals.Store.Table.Content.{content, stat_of}
use vm_vitals.Store.Table.Content.Kept.{kept}
use vm_vitals.Web.Series.{max_points}
use vm_vitals.Main.Points.{sample_points, container_points}
use vm_vitals.Main.Loop.{
  connect_docker, reconnect, ask_docker, take_snapshot, collect_and_write, tick, start,
}
use vm_vitals.Main.Startup.{IpAddr, v4, is_loopback, startup}
use vm_vitals.Main.Daemon.{launch, run_tasks}
use vm_vitals.Main.Daemon.Served.{app_of, raw_query, tick-served}
use vm_vitals.Main.Run.{Outside, Running, run}
use vm_vitals.Auth.Persist.Atomic.{Holds}
use vm_vitals.Store.Open.Resumes.{migrated}
use vm_vitals.Main.Run.Ready.{run-restores}
use vm_vitals.Main.Run.Closed.{run-closed}
use vm_vitals.Tests.Toy.{toy, env_at, decode}
use vm_vitals.Tests.Accounts.{claimed}
use vm_vitals.Tests.Surface.{whole, bare_request, raw_file}
use vm_vitals.Tests.Tables.{counts}
use vm_vitals.Tests.Store.{fresh_id, fresh_id-IsFresh, opened, opened-Sound}
use vm_vitals.Tests.Loop.{bare, socket, turn_of, no_daemon}
use vm_vitals.Tests.Routes.{plain}
use vm_vitals.Tests.Served.{render, bearer_request, asks, may}

tick-served_example :
    All
      (λ p.
        (rows : List (Row ℕ)) × ((serve render plain
            (plain Status.not_found)
            500
            (some series_route)
            (record (asks bearer_request) { query = some (raw_query p.0 (pos 0) (pos 100)) })
            (app_of toy whole
              (some (codes "secret"))
              (some claimed)
              (tick whole fresh_id socket 15 (turn_of no_daemon 30) (start whole opened)).0)).1
          ≡ security_headers (render (points (ok (pos raw, columns (take max_points rows))))))
        × (Option.map stat_of (row_on (as_i64 30) rows)
            ≡ kept whole (content opened) (as_i64 30) p))
      (sample_points whole bare)
unfolding tick reconnect connect_docker strip_prefix collect_and_write take_snapshot ask_docker
    collect_containers collect_snapshot with_limit stale_after start sample_points container_points
    try_write write_points end_write metric_id get intern id_of put_sample insert text_eq remove
    as_i64
tick-served_example =
    tick-served toy whole fresh_id render plain (plain Status.not_found) 500 fresh_id-IsFresh socket
      15 (turn_of no_daemon 30) (start whole opened) bare (some (codes "secret")) (some claimed)
      (asks bearer_request) (pos 0) (pos 100) opened-Sound refl tt refl may refl refl

-- An address is its own text, and always 10.0.0.1.
abbrev private_addr : Text → Result IpAddr String
private_addr t = ok (v4 10 0 0 1)

abbrev ip : IpAddr → IpAddr
ip a = a

abbrev new_file : File ℕ
new_file = record { user_version = pos 0; metric = absent; samples = absent; last_compact = none }

-- Nothing fails; the token is in the file.
abbrev outside : Outside
outside = record {
  from_env = none;
  decoded = ok raw_file;
  data_dir = ok tt;
  env = env_at 500 4;
  setup = ok tt;
  readable = true;
  disk = claimed.disk;
  opening = record { writes = ok tt; migrates = none; reads = ok tt };
  listener = ok tt;
}

abbrev config_of : Raw → Config IpAddr
config_of r = record {
  interval_secs = 15;
  web_bind = v4 10 0 0 1;
  token = some (codes "0123456789abcdef");
  rp_id = r.web.rp_id;
  rp_origin = r.web.rp_origin;
  data_dir = codes "/var/lib/vitals";
  docker_socket = codes "/var/run/docker.sock";
}

abbrev running : Raw → Option (AuthState toy) → Running ℕ IpAddr toy whole
running r auth = record {
  config = config_of r;
  process = launch toy whole (tables_of (migrate new_file)) auth;
}

runs : (run toy whole private_addr ip outside new_file).1 ≡ ok (running raw_file none)
unfolding run load web_token trim as_bytes encode_char startup open_store
runs = refl

run-closed_example :
    (serve render plain (plain Status.not_found) 500 (some series_route) (asks bare_request) (
      app_of toy whole
        (some (codes "0123456789abcdef"))
        none
        (running raw_file none).process.loop)).1
    ≡ security_headers (plain Status.unauthorized)
unfolding is_loopback run_tasks strip_prefix launch
run-closed_example =
    run-closed toy whole private_addr ip fresh_id counts outside new_file (running raw_file none) []
      (running raw_file none).process render plain (plain Status.not_found) 500 (asks bare_request)
      9 series_route runs refl refl (λ e. ground arith) (λ t e b. ground (arith, b.sent)) refl
      (λ a e s. absurd (ground arith))

abbrev passkey_file : Raw
passkey_file = record raw_file {
  web = record raw_file.web {
    rp_id = some (codes "example.org");
    rp_origin = some (codes "https://example.org");
  };
}

abbrev passkey_outside : Outside
passkey_outside = record outside { decoded = ok passkey_file }

-- The account of `claimed`, with nobody signed in.
abbrev restored : AuthState toy
restored = record claimed { sessions = [] }

runs_with_passkeys :
    (run toy whole private_addr ip passkey_outside new_file).1
    ≡ ok (running passkey_file (some restored))
unfolding run load web_token trim as_bytes encode_char startup open_store new load_store decode
runs_with_passkeys = refl

run-restores_example :
    (a : AuthState toy) × ((running passkey_file (some restored)).process.auth ≡ some a)
    × Holds toy true claimed.disk.json a.store
    × ((running passkey_file (some restored)).process.loop.history.tables
        ≡ tables_of (migrated new_file))
run-restores_example =
    run-restores toy whole private_addr ip passkey_outside new_file
      (running passkey_file (some restored)) (codes "example.org") (codes "https://example.org")
      runs_with_passkeys refl refl
