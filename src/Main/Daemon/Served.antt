-- ===== src/Main/Daemon/Served.antt =====
-- main.rs, `run`: what the tasks share with the server, and what a request is answered after a tick.
use mathlib.Core.Option
use vm_vitals.Base.{
  ℕ, ◌≡◌, ◌∙◌, refl, true, false, List, Option, some, Text, ok, All, All-map, arith, take,
}
use vm_vitals.Base.Int.{ℤ, pos, ltb_ℤ}
use vm_vitals.Base.Http.{Status}
use vm_vitals.Auth.Crates.{Crates}
use vm_vitals.Auth.State.{AuthState}
use vm_vitals.Collect.Cpu.{Float}
use vm_vitals.Collect.Snapshot.{Snapshot}
use vm_vitals.Store.Buckets.{raw, is_valid_res}
use vm_vitals.Store.Table.{Row, as_i64, columns, try_write}
use vm_vitals.Store.Table.Query.{within}
use vm_vitals.Store.Table.Answer.{row_on}
use vm_vitals.Store.Table.Sound.{IsFresh, Sound}
use vm_vitals.Store.Table.Content.{stat_of, content}
use vm_vitals.Store.Table.Content.Kept.{kept}
use vm_vitals.Store.Table.Sound.Write.{try_write-Sound}
use vm_vitals.Web.Gate.Access.{Permitted}
use vm_vitals.Web.Series.{SeriesQuery, checked_query, max_points}
use vm_vitals.Web.Router.{Response, security_headers}
use vm_vitals.Web.App.{AppState, Incoming, Reply, points, serve}
use vm_vitals.Web.App.Served.{series_route, serve-series}
use vm_vitals.Main.Points.{HostFigures, sample_points}
use vm_vitals.Main.Points.Distinct.{NamesOk}
use vm_vitals.Main.Loop.{Tick, Loop, tick}
use vm_vitals.Main.Loop.Stored.{tick-history, tick-stored}

-- `web::AppState` of the running tasks.
abbrev pub app_of :
    {Client : Type 0} (c : Crates) (fl : Float)
    → Option Text
    → Option (AuthState c)
    → Loop Client fl
    → AppState c (HostFigures fl.F) fl.F
app_of c fl token auth l = record {
  snapshot = l.snapshot;
  token = token;
  auth = auth;
  store = l.history;
}

-- The raw samples of a metric in a range.
abbrev pub raw_query : Text → ℤ → ℤ → SeriesQuery
raw_query name from to = record { metric = name; from = from; to = to; res = some (pos raw) }

raw_query-checked :
    (name : Text) (from to ts : ℤ)
    → within from to ts ≡ true
    → checked_query (raw_query name from to)
      ≡ ok (record { metric = name; from = from; to = to; res = pos raw; limit = max_points })
unfolding checked_query is_valid_res
raw_query-checked name from to ts h =
    let order : ltb_ℤ to from ≡ false = ground arith in rw order refl

module _ {Client : Type 0} (c : Crates) (fl : Float) (rowid : List (ℕ × Text) → ℕ) where
  open fl use {F}

  -- After a tick whose write succeeded, on a store in order, with fresh ids and with containers of
  -- different names without the separator: for each point of the published snapshot, a request that is
  -- let through and asks for the raw samples of its key, in a range that has the time of the tick, is
  -- answered with the earliest rows, 20,000 at most, of a list that has at that time the value of the
  -- point, or what the history had before, where the value is not finite.
  pub tick-served :
      (render : Reply c (HostFigures F) F → Response) (of_status : Status → Response)
      (missing : Response) (now : ℕ)
      → IsFresh rowid
      → (socket : Text) (tick_secs : ℕ) (t : Tick Client fl) (l : Loop Client fl)
        (s : Snapshot (HostFigures F) F) (token : Option Text) (auth : Option (AuthState c))
        (req : Incoming c (HostFigures F) F) (from to : ℤ)
      → Sound l.history
      → (tick fl rowid socket tick_secs t l).0.snapshot ≡ some s
      → NamesOk fl s.containers
      → (try_write fl rowid t.run s.ts (sample_points fl s) l.history).1 ≡ ok tt
      → Permitted c now req.gate token auth
      → req.database ≡ some (ok tt)
      → within from to (as_i64 s.ts) ≡ true
      → All
          (λ p.
            (rows : List (Row F)) × ((serve render of_status missing now
                (some series_route)
                (record req { query = some (raw_query p.0 from to) })
                (app_of c fl token auth (tick fl rowid socket tick_secs t l).0)).1
              ≡ security_headers (render (points (ok (pos raw, columns (take max_points rows))))))
            × (Option.map stat_of (row_on (as_i64 s.ts) rows)
                ≡ kept fl (content l.history) (as_i64 s.ts) p))
          (sample_points fl s)
  tick-served render of_status missing now fresh socket tick_secs t l s token auth req from to sound
        e names good may runs inside =
      let after = (tick fl rowid socket tick_secs t l).0 in
      let written : Sound after.history =
        rw (tick-history fl rowid socket tick_secs t l s e)
          (try_write-Sound fl rowid fresh t.run s.ts (sample_points fl s) l.history sound good) in
      All-map _ _
        (λ p stored.
          let (rows, given, answers, tier) =
            serve-series render of_status missing now
              (record req { query = some (raw_query p.0 from to) }) (app_of c fl token auth after)
              (raw_query p.0 from to)
              (record { metric = p.0; from = from; to = to; res = pos raw; limit = max_points }) may
              written refl runs (raw_query-checked p.0 from to (as_i64 s.ts) inside) in
          (rows, given, answers.found (as_i64 s.ts) ∙ rw inside stored))
        (sample_points fl s) (tick-stored fl rowid fresh socket tick_secs t l s sound e names good)
