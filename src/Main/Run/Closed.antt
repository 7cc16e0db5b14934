-- ===== src/Main/Run/Closed.antt =====
-- main.rs, `run`: a server on an address that is not loopback, while its tasks run.
use vm_vitals.Base.{
  ℕ, ◌≡◌, ◌≢◌, ap, sym, ◌∙◌, inl, inr, false, none, some, Text, Result, ok, List, [], ◌∷◌, String,
  arith, codes, strip_prefix, Option-cases,
}
use vm_vitals.Base.Http.{Status}
use vm_vitals.Auth.Crates.{Crates}
use vm_vitals.Auth.State.{AuthState}
use vm_vitals.Auth.Persist.{new}
use vm_vitals.Auth.Session.Valid.{SignedIn}
use vm_vitals.Collect.Cpu.{Float}
use vm_vitals.Store.Compact.{Aggregate}
use vm_vitals.Store.Open.{File}
use vm_vitals.Web.Gate.Access.{Bears, by_token, by_session, unconfigured}
use vm_vitals.Web.Router.{Response, Route, routes, security_headers}
use vm_vitals.Web.Router.Gated.{get_elem?, router-gate}
use vm_vitals.Web.App.{Incoming, Reply, handlers, serve}
use vm_vitals.Main.Points.{HostFigures}
use vm_vitals.Main.Startup.{IpAddr, is_loopback, startup-configured}
use vm_vitals.Main.Daemon.{Process, Task, collects, compacts, sweeps, run_task, run_tasks}
use vm_vitals.Main.Daemon.Served.{app_of}
use vm_vitals.Main.Run.{Outside, Running, run}
use vm_vitals.Main.Run.Ready.{run-Ready}

module _ {Client : Type 0} (c : Crates) (fl : Float) (rowid : List (ℕ × Text) → ℕ)
    (ag : Aggregate fl.F) where
  -- No task turns the sign-in off.
  run_tasks-auth :
      (socket : Text) (tick_secs : ℕ) (ts : List (Task Client c fl)) (d : Process Client c fl)
      → (run_tasks c fl rowid ag socket tick_secs ts d).0.auth ≡ none
      → d.auth ≡ none
  unfolding run_tasks run_task
  run_tasks-auth socket tick_secs [] d h = h
  run_tasks-auth socket tick_secs (collects t ∷ ts) d h = run_tasks-auth socket tick_secs ts _ h
  run_tasks-auth socket tick_secs (compacts run now ∷ ts) d h =
      run_tasks-auth socket tick_secs ts _ h
  run_tasks-auth socket tick_secs (sweeps now ∷ ts) d h = elim (Option-cases d.auth) [
    | inl e ↦ e
    | inr (a, e) ↦
        let swept = run_tasks-auth socket tick_secs ts _ h in
        let swept' = rw e at swept in absurd (ground arith)
  ]

module _ {Client Addr : Type 0} (c : Crates) (fl : Float) (parse_addr : Text → Result Addr String)
    (ip : Addr → IpAddr) (rowid : List (ℕ × Text) → ℕ) (ag : Aggregate fl.F) where
  -- A server that runs on an address that is not loopback, after any turns of its tasks: a request for
  -- any route under `/api/` that neither bears the configured token nor carries a live session is
  -- answered 401.
  pub run-closed :
      (out : Outside) (file : File fl.F) (d : Running Client Addr c fl)
      (ts : List (Task Client c fl)) (p : Process Client c fl)
      (render : Reply c (HostFigures fl.F) fl.F → Response) (of_status : Status → Response)
      (missing : Response) (now : ℕ) (req : Incoming c (HostFigures fl.F) fl.F) (i : ℕ) (r : Route)
      → (run c fl parse_addr ip out file).1 ≡ ok d
      → is_loopback (ip d.config.web_bind) ≡ false
      → get_elem? routes i ≡ some r
      → strip_prefix (codes "/api/") r.path ≢ none
      → ((t : Text) → d.config.token ≡ some t → ¬ Bears t req.gate.authorization)
      → p ≡ (run_tasks c fl rowid ag d.config.docker_socket d.config.interval_secs ts d.process).0
      → ((a : AuthState c) → p.auth ≡ some a → ¬ SignedIn c now req.gate.jar a.sessions)
      → (serve render of_status missing now
          (some r)
          req
          (app_of c fl d.config.token p.auth p.loop)).1
        ≡ security_headers (of_status Status.unauthorized)
  unfolding serve
  run-closed out file d ts p render of_status missing now req i r h far there under no_token later
        no_session =
      let app = app_of c fl d.config.token p.auth p.loop in
      (router-gate c of_status missing (handlers render req app) (handlers render req app) now
        req.gate d.config.token i r p.auth there under
        λ may. elim may [
          | by_token t e b ↦ no_token t e b
          | by_session a e s ↦ no_session a e s
          | unconfigured e f ↦
              let ready = run-Ready c fl parse_addr ip out file d h in
              startup-configured c (ip d.config.web_bind) d.config.token d.config.rp_id
                d.config.rp_origin (new c out.env out.setup out.readable out.disk) d.process.auth
                far ready.guarded e
                (run_tasks-auth c fl rowid ag d.config.docker_socket d.config.interval_secs ts
                  d.process (ap (λ x. x.auth) (sym later) ∙ f))
        ]).0
