-- ===== src/Auth/Login/Sections.antt =====
-- auth.rs, `login_finish`, cut into the sections between its locks.
pub mod Whole
use vm_vitals.Base.{
  ℕ, zero, suc, ◌-◌, ◌≤◌, ◌≡◌, refl, inl, inr, none, some, Option, Option-cases, Text, Map, get,
  remove, Result, ok, err, Result-cases, map_err, ok_or, arith,
}
use vm_vitals.Base.Http.{Status, Reject, Handler, ◌>>=◌, ◌>>◌, pure, lift}
use vm_vitals.Auth.Crates.{Crates, UpdateKeepsId}
use vm_vitals.Auth.State.{AuthState, Env, PendingAuth}
use vm_vitals.Auth.Session.{auth_cookie}
use vm_vitals.Auth.Session.Issue.{new_session-frame}
use vm_vitals.Auth.Persist.{replace_file}
use vm_vitals.Auth.Register.{issue_session, later_clock, no_ceremony}
use vm_vitals.Auth.Login.{take_authentication, advance_counters}
use vm_vitals.Auth.Login.Outcome.{take_authentication-cases}
use vm_vitals.Auth.Run.Invariant.{ids, ids-update}

module _ (c : Crates) where
  open c use {
    AuthenticationResult, Jar, LoginCredential, get_cookie, finish_passkey_authentication,
    to_string_pretty,
  }

  -- Where a sign-in stands: before the lock of the ceremonies, with its positive result, with the
  -- counters advanced, with the text to be written, before its new session, and at its answer.
  pub data LoginPlace : Type 0 where
    entered : Env → Jar → LoginCredential → LoginPlace
    proven : Env → Jar → AuthenticationResult → LoginPlace
    advanced : Env → Jar → LoginPlace
    writing : Env → Jar → Text → LoginPlace
    written : Env → Jar → LoginPlace
    replied : Result (Jar × Status) Reject → LoginPlace

  -- Up to the result; the lock of the ceremonies is the only one.
  unfoldable pub prove : Env → Jar → LoginCredential → Handler (AuthState c) AuthenticationResult
  unfolding take_authentication
  prove env jar cred = do
    aid ← lift (ok_or (get_cookie jar auth_cookie) no_ceremony)
    auth_state ← take_authentication c (env.clock 0) aid
    lift (map_err (λ e. (Status.unauthorized, e)) (finish_passkey_authentication cred auth_state))

  abbrev pub reply_or : {A : Type 0} → Result A Reject → (A → LoginPlace) → LoginPlace
  reply_or (ok x) k = k x
  reply_or (err e) k = replied (err e)

  -- A text that cannot be made is logged, and the sign-in goes on.
  abbrev pub to_counters : Env → Jar → Option Text → LoginPlace
  to_counters env jar none = written env jar
  to_counters env jar (some json) = writing env jar json

  unfoldable pub advance_login : LoginPlace → AuthState c → AuthState c × LoginPlace
  unfolding prove advance_counters later_clock replace_file
  advance_login (entered env jar cred) a =
      let (b, r) = prove env jar cred a in (b, reply_or r (λ x. proven env jar x))
  advance_login (proven env jar result) a = (advance_counters c result a, advanced env jar)
  advance_login (advanced env jar) a =
      (a, to_counters env jar (to_string_pretty (a.store.user_id, a.store.passkeys)))
  advance_login (writing env jar json) a =
      let (d, r) = replace_file env.fault json a.disk in (record a { disk = d }, written env jar)
  advance_login (written env jar) a =
      let (b, r) = issue_session c (later_clock env) auth_cookie jar a in
      (b, reply_or r (λ j. replied (ok (j, Status.ok))))
  advance_login (replied r) a = (a, replied r)

  prove-frame :
      (env : Env) (jar : Jar) (cred : LoginCredential) (a : AuthState c)
      → (m : Map (PendingAuth c)) × ((prove env jar cred a).0 ≡ record a { auth = m })
  unfolding prove
  prove-frame env jar cred a = elim (Option-cases (get_cookie jar auth_cookie)) [
    | inl e ↦ (a.auth, rw e refl)
    | inr (aid, e) ↦ elim (take_authentication-cases c (env.clock 0) aid a) [
      | inl (n, gone) ↦ (a.auth, rw (e, n) refl)
      | inr (inl n) ↦ (remove aid a.auth, rw (e, n) refl)
      | inr (inr (p, n, started, fresh)) ↦ (remove aid a.auth, rw (e, n) refl)
    ]
  ]

  -- A section of a sign-in changes no id of a credential.
  pub advance_login-ids :
      UpdateKeepsId c
      → (p : LoginPlace) (a : AuthState c)
      → ids c (advance_login p a).0.store.passkeys ≡ ids c a.store.passkeys
  unfolding advance_login
  advance_login-ids upd (entered env jar cred) a =
      let (m, frame) = prove-frame env jar cred a in rw frame refl
  advance_login-ids upd (proven env jar result) a = ids-update c upd result a.store.passkeys
  advance_login-ids upd (advanced env jar) a = refl
  advance_login-ids upd (writing env jar json) a = refl
  advance_login-ids upd (written env jar) a =
      let (m, frame) = new_session-frame c (later_clock env) a in rw frame refl
  advance_login-ids upd (replied r) a = refl

  -- The sections that are left, at most.
  abbrev pub left_login : LoginPlace → ℕ
  left_login (entered env jar cred) = 5
  left_login (proven env jar result) = 4
  left_login (advanced env jar) = 3
  left_login (writing env jar json) = 2
  left_login (written env jar) = 1
  left_login (replied r) = 0

  pub left_login-advance_login :
      (p : LoginPlace) (a : AuthState c) → left_login (advance_login p a).1 ≤ left_login p - 1
  unfolding advance_login
  left_login-advance_login (entered env jar cred) a = elim (Result-cases (prove env jar cred a).1) [
    | inl (x, e) ↦ rw e (omega arith)
    | inr (x, e) ↦ rw e (omega arith)
  ]
  left_login-advance_login (proven env jar result) a = omega arith
  left_login-advance_login (advanced env jar) a =
      elim (Option-cases (to_string_pretty (a.store.user_id, a.store.passkeys))) [
        | inl e ↦ rw e (omega arith)
        | inr (json, e) ↦ rw e (omega arith)
      ]
  left_login-advance_login (writing env jar json) a = omega arith
  left_login-advance_login (written env jar) a = omega arith
  left_login-advance_login (replied r) a = omega arith

  pub left_login_bound : (p : LoginPlace) → left_login p ≤ 5
  left_login_bound (entered env jar cred) = omega arith
  left_login_bound (proven env jar result) = omega arith
  left_login_bound (advanced env jar) = omega arith
  left_login_bound (writing env jar json) = omega arith
  left_login_bound (written env jar) = omega arith
  left_login_bound (replied r) = omega arith
