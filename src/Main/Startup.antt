-- ===== src/Main/Startup.antt =====
-- main.rs, the decisions of `run` before it serves: which sign-in there is, and whether to serve at
-- all. `std::net` is the standard library's.
use vm_vitals.Base.{
  ℕ, ◌≡◌, inl, inr, Bool, false, not, ◌&&◌, String, Option, none, some, arith, ◌==◌, if◌then◌else◌,
  Result-cases, is_none, Text, Result, ok, err,
}
use vm_vitals.Base.Http.{Status}
use vm_vitals.Auth.Crates.{Crates}
use vm_vitals.Auth.State.{AuthState}
use vm_vitals.Auth.Session.Valid.{SignedIn}
use vm_vitals.Web.Gate.{Request, require_api_auth}
use vm_vitals.Web.Gate.Access.{
  Bears, Permitted, by_token, by_session, unconfigured, require_api_auth-refuses,
}

-- An `IpAddr`, by its bytes or its 16-bit groups.
pub data IpAddr : Type 0 where
  v4 : (a b c d : ℕ) → IpAddr
  v6 : (a b c d e f g h : ℕ) → IpAddr

-- `IpAddr::is_loopback`: 127.0.0.0/8, or ::1.
unfoldable pub is_loopback : IpAddr → Bool
is_loopback (v4 a b c d) = a == 127
is_loopback (v6 a b c d e f g h) =
    a == 0 && b == 0 && c == 0 && d == 0 && e == 0 && f == 0 && g == 0 && h == 1

module _ (c : Crates) where
  -- The `match (&cfg.rp_id, &cfg.rp_origin)`; `init` is what `AuthState::new` returns for them.
  unfoldable pub choose_auth :
      Option Text → Option Text → Result (AuthState c) String → Result (Option (AuthState c)) String
  choose_auth (some id) (some origin) (ok a) = ok (some a)
  choose_auth (some id) (some origin) (err e) = err e
  choose_auth none none init = ok none
  choose_auth (some id) none init = err "web.rp_id and web.rp_origin must be set together"
  choose_auth none (some origin) init = err "web.rp_id and web.rp_origin must be set together"

  unfoldable pub refuse_open :
      IpAddr → Option Text → Option (AuthState c) → Result (Option (AuthState c)) String
  unfolding is_loopback
  refuse_open ip token auth =
      if is_none auth && is_none token && not (is_loopback ip)
      then err "refusing to serve unauthenticated"
      else ok auth

  guard_result :
      IpAddr
      → Option Text
      → Result (Option (AuthState c)) String
      → Result (Option (AuthState c)) String
  unfolding refuse_open
  guard_result ip token (err e) = err e
  guard_result ip token (ok auth) = refuse_open ip token auth

  -- The sign-in that the server comes up with.
  unfoldable pub startup :
      IpAddr
      → Option Text
      → Option Text
      → Option Text
      → Result (AuthState c) String
      → Result (Option (AuthState c)) String
  unfolding choose_auth guard_result
  startup ip token rp_id rp_origin init = guard_result ip token (choose_auth rp_id rp_origin init)

  refuse_open-configured :
      (ip : IpAddr) (token : Option Text) (a auth : Option (AuthState c))
      → is_loopback ip ≡ false
      → refuse_open ip token a ≡ ok auth
      → token ≡ none
      → ¬ (auth ≡ none)
  unfolding refuse_open
  refuse_open-configured ip token a auth far h e f = ground arith

  pub startup-configured :
      (ip : IpAddr) (token rp_id rp_origin : Option Text) (init : Result (AuthState c) String)
      (auth : Option (AuthState c))
      → is_loopback ip ≡ false
      → startup ip token rp_id rp_origin init ≡ ok auth
      → token ≡ none
      → ¬ (auth ≡ none)
  unfolding startup
  startup-configured ip token rp_id rp_origin init auth far h =
      elim (Result-cases (choose_auth rp_id rp_origin init)) [
        | inl (x, g) ↦ refuse_open-configured ip token x auth far (rw g at h)
        | inr (x, g) ↦ let h' = rw g at h in absurd (ground arith)
      ]

  -- A server that came up on an address that is not loopback answers 401 to a request for `/api/*`
  -- that neither bears the token nor carries a live session.
  pub startup-closed :
      (ip : IpAddr) (token rp_id rp_origin : Option Text) (init : Result (AuthState c) String)
      (auth : Option (AuthState c)) (now : ℕ) (req : Request c.Jar)
      → is_loopback ip ≡ false
      → startup ip token rp_id rp_origin init ≡ ok auth
      → ((t : Text) → token ≡ some t → ¬ Bears t req.authorization)
      → ((a : AuthState c) → auth ≡ some a → ¬ SignedIn c now req.jar a.sessions)
      → (require_api_auth c now req token auth).1 ≡ err Status.unauthorized
  startup-closed ip token rp_id rp_origin init auth now req far h no_token no_session =
      require_api_auth-refuses c now req token auth λ p. refuted p
    where
      refuted : ¬ Permitted c now req token auth
      refuted (by_token t e b) = no_token t e b
      refuted (by_session a e s) = no_session a e s
      refuted (unconfigured e f) = startup-configured ip token rp_id rp_origin init auth far h e f
