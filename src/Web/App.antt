-- ===== src/Web/App.antt =====
-- web.rs, `AppState`, `router` and `status`, with the handlers behind the routes: what the server
-- answers to a request. How an answer is rendered, and what axum answers where it cannot read the input
-- of a handler, are parameters.
pub mod Secret
pub mod Served
use mathlib.Core.Option
use vm_vitals.Base.{ℕ, Option, none, some, String, Text, Result, ok, err}
use vm_vitals.Base.Int.{ℤ}
use vm_vitals.Base.Http.{Status, Reject}
use vm_vitals.Auth.Crates.{Crates}
use vm_vitals.Auth.State.{AuthState, Env}
use vm_vitals.Auth.Register.{register_start, register_finish}
use vm_vitals.Auth.Login.{login_start, login_finish}
use vm_vitals.Auth.Pages.{Page, AuthStatus, index, status, with_auth, logout_page}
use vm_vitals.Collect.Snapshot.{Snapshot, published}
use vm_vitals.Store.Table.{History, Series, series}
use vm_vitals.Web.Gate.{Request}
use vm_vitals.Web.Health.{Answer, healthz}
use vm_vitals.Web.Series.{SeriesQuery, StoreQuery, checked_query, answer}
use vm_vitals.Web.Router.{
  Endpoint, to_index, to_healthz, to_logout, to_auth_status, to_register_start, to_register_finish,
  to_login_start, to_login_finish, to_status, to_series, Route, Response, router,
}

module _ (c : Crates) (Host F : Type 0) where
  open c use {Jar, Creation, RegisterCredential, LoginCredential}

  -- The snapshot is shared with the collector loop; the token does not change.
  pub record AppState : Type 0 where
    pub snapshot : Option (Snapshot Host F)
    pub token : Option Text
    pub auth : Option (AuthState c)
    pub store : History F

  -- A request as the handlers read it; `none` is an input that axum refuses. `database` is what the
  -- task of a query meets: `none` is a task that failed, `err` an error of SQLite.
  pub record Incoming : Type 0 where
    pub gate : Request Jar
    pub env : Env
    pub body : Option (Option Text)
    pub registers : Option RegisterCredential
    pub signs_in : Option LoginCredential
    pub query : Option SeriesQuery
    pub database : Option (Result (Unit {0}) String)

  -- What a handler returns.
  pub data Reply : Type 0 where
    page : Page → Reply
    health : Status × Answer → Reply
    signed_out : Jar → Reply
    auth_status : AuthStatus → Reply
    registration : Result (Jar × Creation) Reject → Reply
    registered : Result (Jar × Status) Reject → Reply
    login : Result (Jar × c.Request) Reject → Reply
    logged_in : Result (Jar × Status) Reject → Reply
    latest : Option (Snapshot Host F) → Reply
    points : Result (ℤ × Series F) Reject → Reply
    unreadable : Reply

-- The read of the store for a checked query.
unfoldable pub run_query :
    {F : Type 0}
    → Option (Result (Unit {0}) String)
    → History F
    → StoreQuery
    → Option (Result (Series F) String)
run_query none store q = none
run_query (some (err e)) store q = some (err e)
run_query (some (ok u)) store q = some (ok (series q.metric q.from q.to q.res q.limit store))

module _ {c : Crates} {Host F : Type 0} where
  open c use {Jar}

  abbrev reply_with :
      {A : Type 0}
      → (A → Reply c Host F)
      → Option (AuthState c) × A
      → Option (AuthState c) × Reply c Host F
  reply_with make (auth, x) = (auth, make x)

  unfoldable pub handle :
      Incoming c Host F
      → AppState c Host F
      → Endpoint
      → Option (AuthState c)
      → Option (AuthState c) × Reply c Host F
  unfolding run_query
  handle req app to_index auth = reply_with page (index c (req.env.clock 0) req.gate.jar auth)
  handle req app to_healthz auth = (
    auth,
    health (healthz (req.env.clock 0) (req.env.clock 1) (Option.map published app.snapshot)),
  )
  handle req app to_logout auth = reply_with signed_out (logout_page c req.gate.jar auth)
  handle req app to_auth_status auth =
      reply_with auth_status (status c (req.env.clock 0) req.gate.jar auth)
  handle req app to_register_start auth =
      reply_with registration (with_auth c (register_start c req.env req.gate.jar req.body) auth)
  handle req app to_register_finish auth = elim req.registers [
    | none ↦ (auth, unreadable)
    | some cred ↦
        reply_with registered (with_auth c (register_finish c req.env req.gate.jar cred) auth)
  ]
  handle req app to_login_start auth =
      reply_with login (with_auth c (login_start c req.env req.gate.jar) auth)
  handle req app to_login_finish auth = elim req.signs_in [
    | none ↦ (auth, unreadable)
    | some cred ↦ reply_with logged_in (with_auth c (login_finish c req.env req.gate.jar cred) auth)
  ]
  handle req app to_status auth = (auth, latest app.snapshot)
  handle req app to_series auth = elim req.query [
    | none ↦ (auth, unreadable)
    | some q ↦ (auth, points (answer (run_query req.database app.store) (checked_query q)))
  ]

  -- The handlers as the router calls them.
  abbrev pub handlers :
      (Reply c Host F → Response)
      → Incoming c Host F
      → AppState c Host F
      → Endpoint
      → Option (AuthState c)
      → Option (AuthState c) × Response
  unfolding handle
  handlers render req app e auth = let (auth', r) = handle req app e auth in (auth', render r)

  -- `now` is the clock of the gate.
  unfoldable pub serve :
      (Reply c Host F → Response)
      → (Status → Response)
      → Response
      → ℕ
      → Option Route
      → Incoming c Host F
      → AppState c Host F
      → AppState c Host F × Response
  unfolding handle router
  serve render of_status missing now matched req app =
      let (auth, res) =
        router c of_status missing (handlers render req app) now req.gate app.token matched
          app.auth in
      (record app { auth = auth }, res)
