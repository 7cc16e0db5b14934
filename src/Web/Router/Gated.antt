-- ===== src/Web/Router/Gated.antt =====
-- web.rs, `router`: the gate stands before every route under `/api/`.
use vm_vitals.Base.{
  zero, suc, ap, ◌≢◌, unwrap_or, Option-cases, ℕ, ◌≡◌, refl, sym, ◌∙◌, inl, inr, Bool, true, false,
  List, [], ◌∷◌, Option, none, some, arith, All, Text, codes, text_eq, is_some, strip_prefix,
}
use vm_vitals.Base.Http.{Status}
use vm_vitals.Auth.Crates.{Crates}
use vm_vitals.Auth.State.{AuthState}
use vm_vitals.Web.Gate.{Request, require_api_auth}
use vm_vitals.Web.Gate.Access.{Permitted, require_api_auth_iff, require_api_auth-refuses}
use vm_vitals.Web.Router.{
  Route, Response, Handlers, security_headers, dispatch, router, behind_gate, routes, is_gated,
}

under_api : Route → Bool
under_api r = is_some (strip_prefix (codes "/api/") r.path)

-- The gate stands before the routes under `/api/`, and before no other.
routes_apart : All (λ r. under_api r ≡ is_gated r) routes
unfolding strip_prefix is_gated text_eq under_api
routes_apart = (refl, (refl, (refl, (refl, (refl, (refl, (refl, (refl, (refl, (refl, tt))))))))))

-- `xs[i]`.
abbrev pub get_elem? : List Route → ℕ → Option Route
get_elem? [] i = none
get_elem? (r ∷ rs) zero = some r
get_elem? (r ∷ rs) (suc i) = get_elem? rs i

pub All-get_elem? :
    (P : Route → Type 0) (rs : List Route) (i : ℕ) (r : Route)
    → All P rs
    → get_elem? rs i ≡ some r
    → P r
All-get_elem? P [] i r all h = absurd (ground arith)
All-get_elem? P (s ∷ rs) zero r all h =
    let same : s ≡ r = ap (λ o. unwrap_or o r) h in rw (← same) all.0
All-get_elem? P (s ∷ rs) (suc i) r all h = All-get_elem? P rs i r all.1 h

gated :
    (i : ℕ) (r : Route)
    → get_elem? routes i ≡ some r
    → strip_prefix (codes "/api/") r.path ≢ none
    → is_gated r ≡ true
unfolding under_api
gated i r h under = elim (Option-cases (strip_prefix (codes "/api/") r.path)) [
  | inl e ↦ absurd (under e)
  | inr (rest, e) ↦
      sym (All-get_elem? (λ s. under_api s ≡ is_gated s) routes i r routes_apart h) ∙ rw e refl
]

module _ (c : Crates) (of_status : Status → Response) (missing : Response) where
  pub router-closed :
      (handlers handlers' : Handlers c) (now : ℕ) (req : Request c.Jar) (token : Option Text)
      (r : Route) (auth : Option (AuthState c))
      → is_gated r ≡ true
      → ¬ Permitted c now req token auth
      → let sent = router c of_status missing handlers now req token (some r) auth in
        (sent.1 ≡ security_headers (of_status Status.unauthorized))
        × (sent ≡ router c of_status missing handlers' now req token (some r) auth)
  unfolding router dispatch behind_gate
  router-closed handlers handlers' now req token r auth g refused =
      let closed = require_api_auth-refuses c now req token auth refused in
      rw (g, closed) (refl, refl)

  -- The endpoint's own answer, with the headers.
  abbrev pub hardened : Option (AuthState c) × Response → Option (AuthState c) × Response
  hardened (auth, res) = (auth, security_headers res)

  -- Past the gate.
  pub router-passes :
      (handlers : Handlers c) (now : ℕ) (req : Request c.Jar) (token : Option Text) (r : Route)
      (auth : Option (AuthState c))
      → is_gated r ≡ true
      → Permitted c now req token auth
      → router c of_status missing handlers now req token (some r) auth
        ≡ hardened (handlers r.endpoint (require_api_auth c now req token auth).0)
  unfolding router dispatch behind_gate
  router-passes handlers now req token r auth g may =
      let passed = (require_api_auth_iff c now req token auth).1 may in rw (g, passed) refl

  pub router-open :
      (handlers : Handlers c) (now : ℕ) (req : Request c.Jar) (token : Option Text) (r : Route)
      (auth : Option (AuthState c))
      → is_gated r ≡ false
      → router c of_status missing handlers now req token (some r) auth
        ≡ hardened (handlers r.endpoint auth)
  unfolding router dispatch
  router-open handlers now req token r auth g = rw g refl

  -- A request for any of the routes under `/api/`, without a reason to be let through, is answered
  -- 401, and what the handlers do makes no difference to the answer or the state.
  pub router-gate :
      (handlers handlers' : Handlers c) (now : ℕ) (req : Request c.Jar) (token : Option Text)
      (i : ℕ) (r : Route) (auth : Option (AuthState c))
      → get_elem? routes i ≡ some r
      → strip_prefix (codes "/api/") r.path ≢ none
      → ¬ Permitted c now req token auth
      → let sent = router c of_status missing handlers now req token (some r) auth in
        (sent.1 ≡ security_headers (of_status Status.unauthorized))
        × (sent ≡ router c of_status missing handlers' now req token (some r) auth)
  router-gate handlers handlers' now req token i r auth there under refused =
      router-closed handlers handlers' now req token r auth (gated i r there under) refused
