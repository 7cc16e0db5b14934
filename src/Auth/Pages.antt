-- ===== src/Auth/Pages.antt =====
-- auth.rs, `index` and `status`, and the handlers where passkey sign-in may be off.
pub mod Views
use vm_vitals.Base.{ℕ, Bool, true, Option, none, some, if◌then◌else◌, err}
use vm_vitals.Base.Http.{Status, Handler}
use vm_vitals.Auth.Crates.{Crates}
use vm_vitals.Auth.State.{AuthState}
use vm_vitals.Auth.Session.{registered, session_valid, session_cookie, clear_cookie}
use vm_vitals.Auth.Login.{logout}

-- The two pages that are compiled in.
pub data Page : Type 0 where
  dashboard_html login_html : Page

pub record AuthStatus : Type 0 where
  pub registered : Bool
  pub signed_in : Bool

module _ (c : Crates) where
  open c use {Jar}

  index_page : AuthState c × Bool → Option (AuthState c) × Page
  index_page (a, valid) = (some a, if valid then Page.dashboard_html else Page.login_html)

  -- `none` is a server without passkey sign-in: no gate.
  unfoldable pub index : ℕ → Jar → Option (AuthState c) → Option (AuthState c) × Page
  unfolding index_page
  index now jar none = (none, Page.dashboard_html)
  index now jar (some a) = index_page (session_valid c now jar a)

  unfoldable pub status : ℕ → Jar → Option (AuthState c) → Option (AuthState c) × AuthStatus
  status now jar none = (none, record { registered = true; signed_in = true })
  status now jar (some a) =
      let (a', valid) = session_valid c now jar a in
      (some a', record { registered = registered c (some a.store); signed_in = valid })

  -- `state.auth.as_ref().ok_or((StatusCode::NOT_FOUND, "auth off"))?` before a handler.
  unfoldable pub with_auth :
      {A : Type 0} → Handler (AuthState c) A → Handler (Option (AuthState c)) A
  with_auth h none = (none, err (Status.not_found, "auth off"))
  with_auth h (some a) = let (a', r) = h a in (some a', r)

  -- `logout` answers alike where sign-in is off, and then changes nothing.
  unfoldable pub logout_page : Jar → Option (AuthState c) → Option (AuthState c) × Jar
  logout_page jar none = (none, c.remove_cookie jar (clear_cookie session_cookie))
  logout_page jar (some a) = let (a', j) = logout c jar a in (some a', j)
