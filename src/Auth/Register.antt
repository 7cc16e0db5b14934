-- ===== src/Auth/Register.antt =====
-- auth.rs, `register_start` and `register_finish`.
pub mod Steps
pub mod Outcome
pub mod Begin
pub mod Race
use vm_vitals.Base.{
  ℕ, ◌+◌, ◌≡◌, Bool, true, false, not, ◌&&◌, String, List, [], ◌∷◌, ◌++◌, map, Option, none, some,
  ltb, leb, if◌then◌else◌, Text, trim, as_bytes, Map, get, insert, remove, Result, ok, err, map_err,
  ok_or, is_empty, any, unwrap_or, and_then, drop_last,
}
use vm_vitals.Base.Hex.{hex32}
use vm_vitals.Base.Http.{Status, Reject, Handler, ◌>>=◌, ◌>>◌, pure, reject, lift, gets, modify}
use vm_vitals.Web.Compare.{ct_eq}
use vm_vitals.Auth.Crates.{Crates, Cookie}
use vm_vitals.Auth.State.{
  AuthState, Store, Env, RegMode, bootstrap, add_device, PendingReg, ceremony_ttl,
}
use vm_vitals.Auth.Ceremony.{insert_capped}
use vm_vitals.Auth.Session.{
  reg_cookie, build_cookie, clear_cookie, registered, session_valid, new_session, bootstrap_token,
}
use vm_vitals.Auth.Persist.{persist}

abbrev pub admin_exists : Reject
admin_exists = (Status.forbidden, "an admin already exists — sign in")

abbrev already_enrolled : Reject
already_enrolled = (Status.bad_request, "credential already enrolled")

abbrev pub not_saved : Reject
not_saved = (
  Status.internal_server_error, "could not save credential — check the data directory is writable",
)

abbrev pub no_ceremony : Reject
no_ceremony = (Status.bad_request, "no ceremony")

abbrev pub ceremony_expired : Reject
ceremony_expired = (Status.bad_request, "ceremony expired")

-- The `match (a.registered(), signed_in)`.
unfoldable pub choose_mode : Bool → Bool → Result RegMode Reject
choose_mode false signed_in = ok bootstrap
choose_mode true true = ok add_device
choose_mode true false = err admin_exists

-- The enrolment code of a bootstrap; a missing body and a missing field are an empty code.
unfoldable pub check_code : RegMode → Option Text → Option (Option Text) → Result (Unit {0}) Reject
check_code add_device expected body = ok tt
check_code bootstrap none body = err (Status.forbidden, "enrolment is closed")
check_code bootstrap (some expected) body =
    let given = unwrap_or (and_then body (λ token. token)) [] in
    if ct_eq (as_bytes (trim given)) (as_bytes expected)
    then ok tt
    else err
        (Status.forbidden, "enrolment code required — it is printed in the server log at startup")

-- The readings of the clock that `new_session` makes at the end of a handler.
unfoldable pub later_clock : Env → Env
later_clock env = record env { clock = λ k. env.clock (2 + k) }

module _ (c : Crates) where
  open c use {
    Passkey, CredentialId, Registration, Creation, RegisterCredential, Jar, cred_id, cred_eq,
    start_passkey_registration, finish_passkey_registration, get_cookie, add_cookie, remove_cookie,
  }

  -- A handler's calls of the session check and of `persist`.
  abbrev pub check_jar : ℕ → Jar → Handler (AuthState c) Bool
  check_jar now jar a = let (a', valid) = session_valid c now jar a in (a', ok valid)

  -- The ids that the new credential must not have.
  unfoldable pub exclude_list : List Passkey → Option (List CredentialId)
  exclude_list pks = if is_empty pks then none else some (map cred_id pks)

  unfoldable pub start_ceremony : Env → Handler (AuthState c) (Creation × Registration)
  unfolding exclude_list
  start_ceremony env = do
    s ← gets (λ a. a.store)
    let user_id = unwrap_or s.user_id env.uuid
    (ccr, reg_state) ← lift (
        map_err (λ e. (Status.internal_server_error, e))
          (start_passkey_registration env.seed user_id (exclude_list s.passkeys)))
    modify (λ a. record a {
      store = record {
        user_id = some (unwrap_or a.store.user_id user_id);
        passkeys = a.store.passkeys;
      };
    })
    pure (ccr, reg_state)

  -- The first half of `register_start`: what the request may start.
  unfoldable pub authorise_start : ℕ → Jar → Option (Option Text) → Handler (AuthState c) RegMode
  unfolding choose_mode check_code registered bootstrap_token
  authorise_start now jar body = do
    signed_in ← check_jar now jar
    s ← gets (λ a. a.store)
    mode ← lift (choose_mode (registered c (some s)) signed_in)
    code ← gets (λ a. a.bootstrap)
    lift (check_code mode (bootstrap_token c (some code)) body)
    pure mode

  -- Clock readings: 0 the session, 1 the expiry of the ceremony, 2 the sweep in `insert_capped`.
  unfoldable pub register_start :
      Env → Jar → Option (Option Text) → Handler (AuthState c) (Jar × Creation)
  unfolding authorise_start start_ceremony
  register_start env jar body = do
    mode ← authorise_start (env.clock 0) jar body
    (ccr, reg_state) ← start_ceremony env
    let rid = hex32 env.random
    let pending : PendingReg c = record {
      state = reg_state;
      mode = mode;
      expires = env.clock 1 + ceremony_ttl;
    }
    modify (λ a. record a { reg = insert_capped (λ p. p.expires) (env.clock 2) rid pending a.reg })
    pure (add_cookie jar (build_cookie reg_cookie rid), ccr)

  -- Under the lock of the ceremonies: the entry is removed, also if it has expired.
  unfoldable pub take_registration : ℕ → Text → Handler (AuthState c) (Registration × RegMode)
  take_registration now rid = do
    found ← gets (λ a. get rid a.reg)
    pending ← lift (ok_or found ceremony_expired)
    modify (λ a. record a { reg = remove rid a.reg })
    if leb pending.expires now then reject ceremony_expired else pure (pending.state, pending.mode)

  -- The authorisation of a finished ceremony.
  unfoldable pub allowed : ℕ → Jar → RegMode → Handler (AuthState c) Bool
  allowed now jar bootstrap = gets (λ a. is_empty a.store.passkeys)
  allowed now jar add_device = check_jar now jar

  -- Under the lock of the store: the check of the authorisation, the check that the credential is
  -- new, and the push.
  unfoldable pub enrol : ℕ → Jar → RegMode → Passkey → Handler (AuthState c) (Unit {0})
  unfolding allowed
  enrol now jar mode passkey = do
    is_allowed ← allowed now jar mode
    lift (if is_allowed then ok tt else err admin_exists)
    known ← gets (λ a. any (λ p. cred_eq (cred_id p) (cred_id passkey)) a.store.passkeys)
    lift (if known then err already_enrolled else ok tt)
    modify (λ a. record a {
      store = record { user_id = a.store.user_id; passkeys = a.store.passkeys ++ passkey ∷ [] };
    })

  -- The end of a save: on an error the last credential is popped.
  unfoldable pub roll_back : Result (Unit {0}) String → Handler (AuthState c) (Unit {0})
  roll_back (ok _) a = (a, ok tt)
  roll_back (err e) a = (
    record a {
      store = record { user_id = a.store.user_id; passkeys = drop_last a.store.passkeys };
    },
    err not_saved,
  )

  unfoldable pub save_credential : Env → Handler (AuthState c) (Unit {0})
  unfolding roll_back
  save_credential env a = let (a', r) = persist c env.fault a in roll_back r a'

  -- A bootstrap ends every other registration and burns the code.
  unfoldable pub close_bootstrap : RegMode → AuthState c → AuthState c
  close_bootstrap bootstrap a = record a { reg = []; bootstrap = none }
  close_bootstrap add_device a = a

  abbrev pub issue_session : Env → String → Jar → Handler (AuthState c) Jar
  issue_session env used jar a =
      let (a', cookie) = new_session c env a in
      (a', ok (add_cookie (remove_cookie jar (clear_cookie used)) cookie))

  -- Clock readings: 0 the expiry of the ceremony, 1 the session, from 2 on those of `new_session`.
  unfoldable pub register_finish :
      Env → Jar → RegisterCredential → Handler (AuthState c) (Jar × Status)
  unfolding take_registration enrol save_credential close_bootstrap later_clock
  register_finish env jar cred = do
    rid ← lift (ok_or (get_cookie jar reg_cookie) no_ceremony)
    (reg_state, mode) ← take_registration (env.clock 0) rid
    passkey ←
        lift (map_err (λ e. (Status.bad_request, e)) (finish_passkey_registration cred reg_state))
    enrol (env.clock 1) jar mode passkey
    save_credential env
    modify (close_bootstrap mode)
    jar' ← issue_session (later_clock env) reg_cookie jar
    pure (jar', Status.ok)
