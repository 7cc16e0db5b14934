-- ===== src/Web/Router.antt =====
-- web.rs, `router` and `security_headers`: which handler a request reaches, the gate before `/api/*`,
-- and the headers of every response. Which route a request matches, and the response for one that
-- matches none, are axum's, and parameters here; so are the responses of the handlers, which Web/App has.
pub mod Headers
pub mod Gated
use vm_vitals.Base.{
  ◌++◌, any, ℕ, Bool, String, List, [], ◌∷◌, Option, none, some, if◌then◌else◌, Text, codes,
  text_eq, Map, insert, Result, ok, err,
}
use vm_vitals.Base.Http.{Status}
use vm_vitals.Auth.Crates.{Crates}
use vm_vitals.Auth.State.{AuthState}
use vm_vitals.Web.Gate.{Request, require_api_auth}

pub data Endpoint : Type 0 where
  to_index to_healthz to_logout to_auth_status to_register_start to_register_finish : Endpoint
  to_login_start to_login_finish to_status to_series : Endpoint

pub data Method : Type 0 where
  method_get method_post : Method

pub record Route : Type 0 where
  pub path : Text
  pub method : Method
  pub endpoint : Endpoint

abbrev pub route : String → Method → Endpoint → Route
route path method endpoint = record { path = codes path; method = method; endpoint = endpoint }

-- The routes behind the gate, and the others.
abbrev pub api_routes : List Route
api_routes =
    route "/api/status" method_get to_status ∷ route "/api/series" method_get to_series ∷ []

abbrev pub open_routes : List Route
open_routes =
    route "/" method_get to_index
    ∷ route "/healthz" method_get to_healthz
    ∷ route "/logout" method_post to_logout
    ∷ route "/auth/status" method_get to_auth_status
    ∷ route "/auth/register/start" method_post to_register_start
    ∷ route "/auth/register/finish" method_post to_register_finish
    ∷ route "/auth/login/start" method_post to_login_start
    ∷ route "/auth/login/finish" method_post to_login_finish
    ∷ []

abbrev pub routes : List Route
routes = open_routes ++ api_routes

-- The route was registered behind the gate.
unfoldable pub is_gated : Route → Bool
is_gated r = any (λ s. text_eq s.path r.path) api_routes

pub record Response : Type 0 where
  pub status : Status
  pub headers : Map Text
  pub body : Text

-- The headers in the order in which they are set.
abbrev pub hardening : List (Text × Text)
hardening =
    (
      codes "content-security-policy",
      codes
          "default-src 'none'; script-src 'unsafe-inline'; style-src 'unsafe-inline'; img-src 'self' data:; connect-src 'self'; base-uri 'none'; form-action 'self'; frame-ancestors 'none'",
    )
    ∷ (codes "x-content-type-options", codes "nosniff")
    ∷ (codes "x-frame-options", codes "DENY")
    ∷ (codes "referrer-policy", codes "no-referrer")
    ∷ (codes "cache-control", codes "no-store, private")
    ∷ (codes "vary", codes "Cookie")
    ∷ []

-- `h.insert(name, value)`, one after the other.
unfoldable pub insert_headers : List (Text × Text) → Map Text → Map Text
insert_headers [] m = m
insert_headers ((k, v) ∷ hs) m = insert_headers hs (insert k v m)

unfoldable pub security_headers : Response → Response
unfolding insert_headers
security_headers res = record res { headers = insert_headers hardening res.headers }

module _ (c : Crates) where
  abbrev pub Handlers : Type 0
  Handlers = Endpoint → Option (AuthState c) → Option (AuthState c) × Response

  behind_gate :
      (Status → Response)
      → Endpoint
      → Handlers
      → Option (AuthState c) × Result (Unit {0}) Status
      → Option (AuthState c) × Response
  behind_gate of_status e handlers (auth, ok u) = handlers e auth
  behind_gate of_status e handlers (auth, err status) = (auth, of_status status)

  -- Before the headers are set.
  unfoldable pub dispatch :
      (Status → Response)
      → Response
      → Handlers
      → ℕ
      → Request c.Jar
      → Option Text
      → Option Route
      → Option (AuthState c)
      → Option (AuthState c) × Response
  unfolding behind_gate is_gated
  dispatch of_status missing handlers now req token none auth = (auth, missing)
  dispatch of_status missing handlers now req token (some r) auth =
      if is_gated r
      then behind_gate of_status r.endpoint handlers (require_api_auth c now req token auth)
      else handlers r.endpoint auth

  unfoldable pub router :
      (Status → Response)
      → Response
      → Handlers
      → ℕ
      → Request c.Jar
      → Option Text
      → Option Route
      → Option (AuthState c)
      → Option (AuthState c) × Response
  unfolding dispatch security_headers
  router of_status missing handlers now req token matched auth =
      let (auth', res) = dispatch of_status missing handlers now req token matched auth in
      (auth', security_headers res)
