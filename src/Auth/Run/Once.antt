-- ===== src/Auth/Run/Once.antt =====
-- auth.rs: a ceremony from its start to its finish, and after it.
use vm_vitals.Base.{
  ap, List, Distinct, ◌+◌, ◌<◌, ◌≡◌, inl, inr, false, none, some, arith, Text, get, remove,
  get-remove_self, is_empty, ok, err, leb,
}
use vm_vitals.Base.Hex.{hex32}
use vm_vitals.Auth.Crates.{Crates, JarKeeps}
use vm_vitals.Auth.State.{AuthState, Env, PendingAuth, ceremony_ttl}
use vm_vitals.Auth.Ceremony.{insert_capped}
use vm_vitals.Auth.Ceremony.Bounds.{insert_capped_bounds, insert_capped-Distinct}
use vm_vitals.Auth.Session.{auth_cookie, build_cookie}
use vm_vitals.Auth.Session.Issue.{new_session-frame}
use vm_vitals.Auth.Register.{ceremony_expired, later_clock}
use vm_vitals.Auth.Login.{
  login_start, login_finish, take_authentication, advance_counters, try_persist,
}
use vm_vitals.Auth.Run.{Op}
use vm_vitals.Auth.Run.Pending.{AllSpare, Pends, Pends-serve_all, serve_all}
use vm_vitals.Auth.Login.Outcome.{login_finish_cases, signed_in}

module _ (c : Crates) where
  open c use {
    Jar, Request, Authentication, AuthenticationResult, LoginCredential, get_cookie, add_cookie,
    start_passkey_authentication, finish_passkey_authentication,
  }

  build_cookie-kept :
      JarKeeps c
      → (jar : Jar) (v : Text)
      → get_cookie (add_cookie jar (build_cookie auth_cookie v)) auth_cookie ≡ some v
  unfolding build_cookie
  build_cookie-kept keeps jar v = keeps jar (build_cookie auth_cookie v)

  login_finish-taken :
      (env : Env) (jar : Jar) (cred : LoginCredential) (a : AuthState c) (aid : Text)
      → get_cookie jar auth_cookie ≡ some aid
      → get aid a.auth ≡ none
      → login_finish c env jar cred a ≡ (a, err ceremony_expired)
  unfolding login_finish
  login_finish-taken env jar cred a aid carried gone = rw (carried, login_finish, gone)

  login_finish-removes :
      (env : Env) (jar : Jar) (cred : LoginCredential) (a : AuthState c) (aid : Text)
      → get_cookie jar auth_cookie ≡ some aid
      → get aid (login_finish c env jar cred a).0.auth ≡ none
  login_finish-removes env jar cred a aid carried = elim (login_finish_cases c env jar cred a) [
    | inl (b, e, s) ↦
        let (m, frame) = new_session-frame c (later_clock env) b in
        let mine : aid ≡ s.aid = ground (arith, s.carried) in
        rw (e, frame, s.auth, mine) (get-remove_self s.aid a.auth)
    | inr (x, e) ↦ rw (e, carried) (get-remove_self aid a.auth)
  ]

  -- Whatever came of a sign-in, the same cookie is refused from then on: an assertion cannot be
  -- replayed, and the refusal changes nothing.
  pub login_finish_once :
      (env env' : Env) (jar : Jar) (cred cred' : LoginCredential) (a : AuthState c) (aid : Text)
      → get_cookie jar auth_cookie ≡ some aid
      → login_finish c env' jar cred' (login_finish c env jar cred a).0
        ≡ ((login_finish c env jar cred a).0, err ceremony_expired)
  login_finish_once env env' jar cred cred' a aid carried =
      login_finish-taken env' jar cred' _ aid carried
        (login_finish-removes env jar cred a aid carried)

  login_start-started :
      (env : Env) (jar : Jar) (a : AuthState c) (rcr : Request) (state : Authentication)
      → is_empty a.store.passkeys ≡ false
      → start_passkey_authentication env.seed a.store.passkeys ≡ ok (rcr, state)
      → login_start c env jar a ≡ (
        record a {
          auth =
              insert_capped
                (λ p. p.expires)
                (env.clock 1)
                (hex32 env.random)
                (record { state = state; expires = env.clock 0 + ceremony_ttl })
                a.auth;
        },
        ok (add_cookie jar (build_cookie auth_cookie (hex32 env.random)), rcr),
      )
  unfolding login_start
  login_start-started env jar a rcr state claimed start = rw (claimed, login_start, start)

  login_finish-signed_in :
      (env : Env) (jar : Jar) (cred : LoginCredential) (a : AuthState c) (aid : Text)
      (p : PendingAuth c) (result : AuthenticationResult)
      → get_cookie jar auth_cookie ≡ some aid
      → get aid a.auth ≡ some p
      → env.clock 0 < p.expires
      → finish_passkey_authentication cred p.state ≡ ok result
      → (b : AuthState c) × (login_finish c env jar cred a ≡ signed_in c env jar b)
  unfolding login_finish take_authentication advance_counters try_persist
  login_finish-signed_in env jar cred a aid p result carried started fresh good =
      let late : leb p.expires (env.clock 0) ≡ false = ground arith in
      (
        try_persist c env (advance_counters c result (record a { auth = remove aid a.auth })),
        rw (carried, login_finish, started, late, good),
      )

  -- A sign-in that starts can be finished with the cookie it handed out, until `CEREMONY_TTL` after
  -- its start, whatever the map held, and after any requests and timers served in between of which
  -- each other start of a sign-in finds fewer than MAX_CEREMONIES pending, draws another key and reads
  -- its clock before the expiry, each other finish has another cookie, and each sweep comes before the
  -- expiry.
  pub login_round_trip :
      JarKeeps c
      → (env env' : Env) (jar : Jar) (cred : LoginCredential) (a : AuthState c) (rcr : Request)
        (state : Authentication) (result : AuthenticationResult) (ops : List (Op c))
      → Distinct a.auth
      → is_empty a.store.passkeys ≡ false
      → start_passkey_authentication env.seed a.store.passkeys ≡ ok (rcr, state)
      → finish_passkey_authentication cred state ≡ ok result
      → env'.clock 0 < env.clock 0 + ceremony_ttl
      → AllSpare c (hex32 env.random) (env.clock 0 + ceremony_ttl) ops (login_start c env jar a).0
      → (jar' : Jar) × (b : AuthState c) × ((login_start c env jar a).1 ≡ ok (jar', rcr))
        × (login_finish c env' jar' cred (serve_all c ops (login_start c env jar a).0)
            ≡ signed_in c env' jar' b)
  login_round_trip keeps env env' jar cred a rcr state result ops d claimed start good fresh spare =
      let cookie = build_cookie auth_cookie (hex32 env.random) in
      let p : PendingAuth c = record { state = state; expires = env.clock 0 + ceremony_ttl } in
      let e = login_start-started env jar a rcr state claimed start in
      let begun = (login_start c env jar a).0 in
      let pending : Pends c (hex32 env.random) p begun.auth = rw e (
        insert_capped-Distinct (λ x. x.expires) (env.clock 1) (hex32 env.random) p a.auth d,
        (insert_capped_bounds (λ x. x.expires) (env.clock 1) (hex32 env.random) p a.auth).1,
      ) in
      let there = (Pends-serve_all c (hex32 env.random) p ops begun spare pending).1 in
      let (b, done) =
        login_finish-signed_in env' (add_cookie jar cookie) cred (serve_all c ops begun)
          (hex32 env.random) p result (build_cookie-kept keeps jar (hex32 env.random)) there fresh
          good in
      (add_cookie jar cookie, b, ap (λ r. r.1) e, done)
