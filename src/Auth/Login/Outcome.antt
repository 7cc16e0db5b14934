-- ===== src/Auth/Login/Outcome.antt =====
-- auth.rs, `login_start` and `login_finish`: their outcomes.
use vm_vitals.Base.{
  ℕ, ◌+◌, ◌<◌, ◌≡◌, refl, ◌⊎◌, inl, inr, false, map, none, some, arith, leb, Bool-cases,
  Option-cases, Text, Map, get, remove, remove_absent, ◌≢◌, Option, List, Result, ok, err,
  Result-cases, is_empty-cases, is_empty,
}
use vm_vitals.Base.Hex.{hex32}
use vm_vitals.Base.Http.{Status, Reject}
use vm_vitals.Auth.Crates.{Crates}
use vm_vitals.Auth.State.{AuthState, Env, Disk, no_fault, PendingAuth, ceremony_ttl}
use vm_vitals.Auth.Ceremony.{insert_capped}
use vm_vitals.Auth.Session.{auth_cookie, build_cookie, clear_cookie, new_session}
use vm_vitals.Auth.Session.Valid.{Shrinks, same, without}
use vm_vitals.Auth.Persist.Atomic.{persist-atomic}
use vm_vitals.Auth.Register.{later_clock, no_ceremony, ceremony_expired}
use vm_vitals.Auth.Login.{
  login_start, take_authentication, advance_counters, try_persist, login_finish, no_account,
}

module _ (c : Crates) where
  open c use {
    Passkey, Authentication, AuthenticationResult, Request, LoginCredential, Jar, update_credential,
    start_passkey_authentication, finish_passkey_authentication, get_cookie, add_cookie,
    remove_cookie, to_string_pretty,
  }

  -- A sign-in may begin once somebody is enrolled; otherwise nothing changes.
  pub login_start_cases :
      (env : Env) (jar : Jar) (a : AuthState c)
      → ((rcr : Request) × (state : Authentication) × (is_empty a.store.passkeys ≡ false)
          × (start_passkey_authentication env.seed a.store.passkeys ≡ ok (rcr, state))
          × (login_start c env jar a ≡ (
            record a {
              auth =
                  insert_capped
                    (λ p. p.expires)
                    (env.clock 1)
                    (hex32 env.random)
                    (record { state = state; expires = env.clock 0 + ceremony_ttl })
                    a.auth;
            },
            ok (add_cookie jar (build_cookie auth_cookie (hex32 env.random)), rcr),
          )))
        ⊎ ((e : Reject) × (login_start c env jar a ≡ (a, err e)))
  unfolding login_start
  login_start_cases env jar a = elim (is_empty-cases a.store.passkeys) [
    | inl e ↦ inr (no_account, rw (e, login_start))
    | inr some_yet ↦ elim (Result-cases (start_passkey_authentication env.seed a.store.passkeys)) [
      | inl ((rcr, state), e) ↦ inl (rcr, state, some_yet, e, rw (some_yet, login_start, e))
      | inr (x, e) ↦ inr ((Status.internal_server_error, x), rw (some_yet, login_start, e))
    ]
  ]

  -- The counters are on disk, or `auth.json` is as it was, and then the text could not be made or a
  -- call of the write failed.
  abbrev pub Saved : Env → Option ℕ × List Passkey → Disk → Disk → Type 0
  Saved env s d old =
      ((json : Text) × (to_string_pretty s ≡ some json) × (d.json ≡ some json))
      ⊎ ((d.json ≡ old.json) × ((to_string_pretty s ≡ none) ⊎ (env.fault ≢ no_fault)))

  -- The ceremony that a successful sign-in redeemed, and the state before the new session.
  pub record SignsIn (env : Env) (jar : Jar) (cred : LoginCredential) (a b : AuthState c)
      : Type 0 where
    pub aid : Text
    pub pending : PendingAuth c
    pub result : AuthenticationResult
    pub carried : get_cookie jar auth_cookie ≡ some aid
    pub started : get aid a.auth ≡ some pending
    pub fresh : env.clock 0 < pending.expires
    pub verified : finish_passkey_authentication cred pending.state ≡ ok result
    pub user_id : b.store.user_id ≡ a.store.user_id
    pub passkeys : b.store.passkeys ≡ map (update_credential result) a.store.passkeys
    pub saved : Saved env (b.store.user_id, b.store.passkeys) b.disk a.disk
    pub auth : b.auth ≡ remove aid a.auth
    pub reg : b.reg ≡ a.reg
    pub code : b.bootstrap ≡ a.bootstrap
    pub sessions : b.sessions ≡ a.sessions

  pub take_authentication-cases :
      (now : ℕ) (aid : Text) (a : AuthState c)
      → ((take_authentication c now aid a ≡ (a, err ceremony_expired)) × (get aid a.auth ≡ none))
        ⊎ (take_authentication c now aid a
            ≡ (record a { auth = remove aid a.auth }, err ceremony_expired))
        ⊎ ((p : PendingAuth c) × (take_authentication c now aid a
              ≡ (record a { auth = remove aid a.auth }, ok p.state))
            × (get aid a.auth ≡ some p)
            × (now < p.expires))
  unfolding take_authentication
  take_authentication-cases now aid a = elim (Option-cases (get aid a.auth)) [
    | inl n ↦ inl (rw n, n)
    | inr (p, started) ↦ elim (Bool-cases (leb p.expires now)) [
      | inl late ↦ inr (inl (rw (started, late)))
      | inr fresh ↦ inr (inr (p, rw (started, fresh), started, ground arith))
    ]
  ]

  try_persist-cases :
      (env : Env) (a : AuthState c)
      → (d : Disk) × (try_persist c env a ≡ record a { disk = d })
        × Saved env (a.store.user_id, a.store.passkeys) d a.disk
  unfolding try_persist
  try_persist-cases env a =
      let (d, e, how) = persist-atomic c env.fault a in
      elim how [
        | inl (json, r, w, j) ↦ (d, e, inl (json, w, j))
        | inr (x, r, j, why) ↦ (d, e, inr (j, why))
      ]

  abbrev pub signed_in : Env → Jar → AuthState c → AuthState c × Result (Jar × Status) Reject
  signed_in env jar b = (
    (new_session c (later_clock env) b).0,
    ok (
      add_cookie (remove_cookie jar (clear_cookie auth_cookie))
          (new_session c (later_clock env) b).1,
      Status.ok,
    ),
  )

  -- The pending sign-ins without that of the cookie.
  abbrev pub left_over : Option Text → Map (PendingAuth c) → Map (PendingAuth c)
  left_over none m = m
  left_over (some aid) m = remove aid m

  pub left_over-Shrinks : (o : Option Text) (m : Map (PendingAuth c)) → Shrinks m (left_over o m)
  left_over-Shrinks none m = same refl
  left_over-Shrinks (some aid) m = without aid refl

  -- Either a verified, unexpired ceremony is redeemed and a session is issued, with the advanced
  -- counters on disk unless their text could not be made or a call of the write failed; or the request
  -- is refused, and nothing changes but that the ceremony of its cookie, if there is one, is gone.
  pub login_finish_cases :
      (env : Env) (jar : Jar) (cred : LoginCredential) (a : AuthState c)
      → ((b : AuthState c) × (login_finish c env jar cred a ≡ signed_in env jar b)
          × SignsIn env jar cred a b)
        ⊎ ((e : Reject) × (login_finish c env jar cred a
              ≡ (record a { auth = left_over (get_cookie jar auth_cookie) a.auth }, err e)))
  unfolding login_finish
  login_finish_cases env jar cred a = elim (Option-cases (get_cookie jar auth_cookie)) [
    | inl n ↦ inr (no_ceremony, rw (n, login_finish))
    | inr (aid, carried) ↦ elim (take_authentication-cases (env.clock 0) aid a) [
      | inl (n, gone) ↦
          inr (ceremony_expired, rw (carried, login_finish, n, remove_absent aid a.auth gone))
      | inr (inl n) ↦ inr (ceremony_expired, rw (carried, login_finish, n))
      | inr (inr (p, taken, started, fresh)) ↦
          elim (Result-cases (finish_passkey_authentication cred p.state)) [
            | inr (x, bad) ↦ inr ((Status.unauthorized, x), rw (carried, login_finish, taken, bad))
            | inl (result, good) ↦
                let a1 : AuthState c = record a {
                  store = record {
                    user_id = a.store.user_id;
                    passkeys = map (update_credential result) a.store.passkeys;
                  };
                  auth = remove aid a.auth;
                } in
                let (d, e, how) = try_persist-cases env a1 in
                inl (
                  record a1 { disk = d },
                  rw (carried, login_finish, taken, good, advance_counters, e),
                  record {
                    aid = aid;
                    pending = p;
                    result = result;
                    carried = carried;
                    started = started;
                    fresh = fresh;
                    verified = good;
                    user_id = refl;
                    passkeys = refl;
                    saved = how;
                    auth = refl;
                    reg = refl;
                    code = refl;
                    sessions = refl;
                  },
                )
          ]
    ]
  ]
