-- ===== src/Auth/Login.antt =====
-- auth.rs, `login_start`, `login_finish` and `logout`.
pub mod Outcome
pub mod Sections
use vm_vitals.Base.{
  ℕ, ◌+◌, ◌≡◌, Bool, true, false, String, List, [], ◌∷◌, map, Option, none, some, leb,
  if◌then◌else◌, Text, Map, get, remove, Result, ok, err, map_err, ok_or, is_empty,
}
use vm_vitals.Base.Hex.{hex32}
use vm_vitals.Base.Http.{Status, Reject, Handler, ◌>>=◌, ◌>>◌, pure, reject, lift, gets, modify}
use vm_vitals.Auth.Crates.{Crates}
use vm_vitals.Auth.State.{AuthState, Store, Env, PendingAuth, ceremony_ttl}
use vm_vitals.Auth.Ceremony.{insert_capped}
use vm_vitals.Auth.Session.{session_cookie, auth_cookie, build_cookie, clear_cookie}
use vm_vitals.Auth.Persist.{persist}
use vm_vitals.Auth.Register.{issue_session, later_clock, no_ceremony, ceremony_expired}

abbrev no_account : Reject
no_account = (Status.bad_request, "no account yet — create one")

module _ (c : Crates) where
  open c use {
    Authentication, AuthenticationResult, Request, LoginCredential, Jar, update_credential,
    start_passkey_authentication, finish_passkey_authentication, get_cookie, add_cookie,
    remove_cookie,
  }

  -- Clock readings: 0 the expiry of the ceremony, 1 the sweep in `insert_capped`.
  unfoldable pub login_start : Env → Jar → Handler (AuthState c) (Jar × Request)
  login_start env jar = do
    passkeys ← gets (λ a. a.store.passkeys)
    lift (if is_empty passkeys then err no_account else ok tt)
    (rcr, auth_state) ← lift (
        map_err (λ e. (Status.internal_server_error, e))
          (start_passkey_authentication env.seed passkeys))
    let aid = hex32 env.random
    let pending : PendingAuth c = record {
      state = auth_state;
      expires = env.clock 0 + ceremony_ttl;
    }
    modify
        (λ a. record a { auth = insert_capped (λ p. p.expires) (env.clock 1) aid pending a.auth })
    pure (add_cookie jar (build_cookie auth_cookie aid), rcr)

  -- The entry is removed before anything is verified, so a ceremony serves once.
  unfoldable pub take_authentication : ℕ → Text → Handler (AuthState c) Authentication
  take_authentication now aid = do
    found ← gets (λ a. get aid a.auth)
    pending ← lift (ok_or found ceremony_expired)
    modify (λ a. record a { auth = remove aid a.auth })
    if leb pending.expires now then reject ceremony_expired else pure pending.state

  -- Every credential is offered the result of the ceremony.
  unfoldable pub advance_counters : AuthenticationResult → AuthState c → AuthState c
  advance_counters r a = record a {
    store = record {
      user_id = a.store.user_id;
      passkeys = map (update_credential r) a.store.passkeys;
    };
  }

  -- A failed write of the counters is logged and does not stop the sign-in.
  unfoldable pub try_persist : Env → AuthState c → AuthState c
  try_persist env a = (persist c env.fault a).0

  unfoldable pub login_finish : Env → Jar → LoginCredential → Handler (AuthState c) (Jar × Status)
  unfolding take_authentication advance_counters try_persist later_clock
  login_finish env jar cred = do
    aid ← lift (ok_or (get_cookie jar auth_cookie) no_ceremony)
    auth_state ← take_authentication (env.clock 0) aid
    result ←
        lift
          (map_err (λ e. (Status.unauthorized, e)) (finish_passkey_authentication cred auth_state))
    modify (advance_counters result)
    modify (try_persist env)
    jar' ← issue_session c (later_clock env) auth_cookie jar
    pure (jar', Status.ok)

  end_session : Option Text → AuthState c → AuthState c
  end_session none a = a
  end_session (some tok) a = record a { sessions = remove tok a.sessions }

  -- The session of the cookie ends, and the cookie is cleared; then a redirect to "/".
  unfoldable pub logout : Jar → AuthState c → AuthState c × Jar
  unfolding end_session
  logout jar a = (
    end_session (get_cookie jar session_cookie) a,
    remove_cookie jar (clear_cookie session_cookie),
  )
