-- ===== src/Web/Gate.antt =====
-- web.rs, `require_api_auth`: who may call `/api/*`.
pub mod Access
use vm_vitals.Base.{
  ℕ, ◌≡◌, Bool, true, false, ◌&&◌, String, List, [], Option, none, some, if◌then◌else◌, is_none,
  unwrap_or, and_then, Text, codes, strip_prefix, as_bytes, Result, ok, err,
}
use mathlib.Core.Option
use vm_vitals.Base.Http.{Status}
use vm_vitals.Web.Compare.{ct_eq}
use vm_vitals.Auth.Crates.{Crates}
use vm_vitals.Auth.State.{AuthState}
use vm_vitals.Auth.Session.{session_valid}

-- A request as the gate reads it: the `Authorization` header, whose value may not be text, and the
-- jar of its cookies.
pub record Request (Jar : Type 0) : Type 0 where
  pub authorization : Option (Option Text)
  pub jar : Jar

-- The bearer token of the header.
unfoldable pub bearer : Option (Option Text) → Option Text
bearer header = and_then (and_then header (λ h. h)) (strip_prefix (codes "Bearer "))

-- `.map(|got| ct_eq(…)).unwrap_or(false)`.
unfoldable pub bearer_ok : Text → Option (Option Text) → Bool
unfolding bearer
bearer_ok expected header =
    unwrap_or (Option.map (λ got. ct_eq (as_bytes got) (as_bytes expected)) (bearer header)) false

module _ (c : Crates) where
  check_bearer : Option Text → Option (Option Text) → Bool
  check_bearer none header = false
  check_bearer (some expected) header = bearer_ok expected header

  -- The session cookie, when passkey sign-in is on.
  check_cookie : ℕ → c.Jar → Option (AuthState c) → Option (AuthState c) × Bool
  check_cookie now jar none = (none, false)
  check_cookie now jar (some a) = let (a', valid) = session_valid c now jar a in (some a', valid)

  -- `ok` lets the request through. With a good token the session is not looked at.
  unfoldable pub require_api_auth :
      ℕ
      → Request c.Jar
      → Option Text
      → Option (AuthState c)
      → Option (AuthState c) × Result (Unit {0}) Status
  unfolding bearer_ok check_bearer check_cookie
  require_api_auth now req token auth =
      let (auth', valid) = check_cookie now req.jar auth in
      if check_bearer token req.authorization
      then (auth, ok tt)
      else if valid
      then (auth', ok tt)
      else if is_none token && is_none auth
      then (auth', ok tt)
      else (auth', err Status.unauthorized)
