-- ===== src/Lib.antt =====
-- vm_vitals: a model of the vitals daemon, which watches a host and its containers, keeps their
-- history, and serves a dashboard behind passkey sign-in.
--
-- The program. src/config.rs reads the command line, a TOML file and VITALS_TOKEN. src/main.rs
-- decides which sign-in there is and refuses to serve openly, then runs the collector loop, the
-- compactor, a timer that sweeps expired state, and the server. src/collect/ reads the host and the
-- containers. src/store.rs keeps the history. src/web.rs has the API, its gate and the health check;
-- src/auth.rs has passkey registration and sign-in, the sessions, and the file of credentials. The
-- gate and the pages ask `session_valid` of src/auth.rs; the series endpoint asks `pick_res` and
-- `is_valid_res` of src/store.rs.
--
-- The files.
--   Base/      tests, lists, texts (lists of code points), UTF-8, maps, results, integers, and the
--              monad of the handlers: a state, and a value or an HTTP refusal. A handler keeps the
--              state of an error, as the source does when it returns early.
--   Auth/Crates     the interface to webauthn-rs, serde_json and the cookie jar, with the documented
--                   behaviour that theorems assume as hypotheses
--   Auth/State      `Store`, `RegMode`, `PendingReg`, `PendingAuth`, `AuthState`, and `Env`, what a
--                   request draws from outside: readings of the clock, which may go back, random
--                   bytes, and where a write fails
--   Auth/Ceremony   `insert_capped`
--   Auth/Session    `session_valid`, `new_session`, `sweep`, `registered`, the cookies
--   Auth/Persist    `AuthState::new` and `persist`, on `auth.json` and its temporary file
--   Auth/Register   `register_start` and `register_finish`; Auth/Login: `login_start`,
--                   `login_finish`, `logout`; Auth/Pages: `index`, `status`, and sign-in off
--   Auth/Persist/Files   `persist` and `open_private` call by call, on files that two names stand for
--   Auth/Run        requests, timers and restarts as a step relation
--   Auth/Concurrent   `register_finish`, and `login_finish` in Auth/Login/Sections, cut into the
--                   sections between their locks, and requests in flight that run them in any
--                   order, beside the other requests
--   Web/Compare, Web/Gate, Web/Health, Web/Series   `ct_eq`, `require_api_auth`, `healthz`, `series`
--                   of src/web.rs; Web/Router: `router` and `security_headers`; Web/App: `AppState`
--                   and `status`, with the handlers of every part behind the routes
--   Config          src/config.rs, `load`
--   Main/Startup, Main/Points, Main/Loop   src/main.rs, the start of `run`, `sample_points`, and the
--                   collector loop with `connect_docker`; a turn of the loop calls Collect/Snapshot,
--                   Main/Points and Store/Table. Main/Daemon: the tasks of `run` in any order;
--                   Main/Run: `run` itself, from the configuration to the server
--   Collect/Cpu, Collect/Docker   src/collect/docker.rs, `sample_stats` and `DockerCollector::collect`
--   Collect/Snapshot   src/collect/mod.rs, `collect`; Collect/Host: src/collect/host.rs, `collect`
--   Store/Buckets   src/store.rs, `ceil_bucket`, `pick_res`, `is_valid_res`
--   Store/Open      src/store.rs, `open` and `migrate`
--   Store/Table     src/store.rs, `metric_id`, `try_write` and `series`, on the tables; below it,
--                   Content has the store as a client sees it, a value for a name, a resolution and a
--                   time, and Sound what the tables and the memo have to be for that
--   Store/Compact   src/store.rs, the rollups and the pruning of `try_compact`; Store/Compact/Run the
--                   whole of it, and runs of writes, compactions and restarts
--   Tests/          a small implementation of the crates, and runs
--
-- Bounds and fuel. Times are seconds as natural numbers, or integers where the source has i64. The
-- eviction loop of `insert_capped` has the length of the map as fuel: every round removes an entry,
-- so the loop ends by its own test. A u64 or i64 operation that saturates or is checked has that
-- written out.
--
-- Not modelled: requests other than the finish of a registration or of a sign-in that interleave
-- between two locks (each of these is served to its end); what SQLite is configured with, and the
-- modes of the files; the timers of the loops of src/main.rs, and what a task that panics leaves;
-- how axum matches a request with a route; log lines but those of the collector loop; the HTML
-- pages. Time-outs of the Docker calls are outcomes of the calls. In Store/Table and
-- Store/Compact/Run a statement that fails is an argument, and a query for an answer does not fail;
-- SQLite sums a group in an order that it chooses, which is here that of the table. A poisoned lock
-- appears only where the source answers to it, since the release
-- build aborts on a panic.
pub mod Base
pub mod Web
pub mod Auth
pub mod Config
pub mod Main
pub mod Collect
pub mod Store
pub mod Tests
