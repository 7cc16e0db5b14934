-- ===== src/Auth/Run/Pending.antt =====
-- auth.rs: a sign-in under way, over the requests and timers that come before its finish.
use vm_vitals.Base.{
  ℕ, ◌+◌, ◌<◌, ◌≡◌, ◌≢◌, refl, ap, ltb, inl, inr, List, [], ◌∷◌, Option, none, some, arith, length,
  Text, Map, get, remove, get-remove, get-retain, text_eq_iff, Distinct, Option-cases,
  remove-Distinct, retain-Distinct,
}
use vm_vitals.Base.Hex.{hex32}
use vm_vitals.Auth.Crates.{Crates}
use vm_vitals.Auth.State.{AuthState, Env, PendingAuth, ceremony_ttl, max_ceremonies}
use vm_vitals.Auth.Ceremony.Bounds.{insert_capped_keeps, insert_capped-Distinct}
use vm_vitals.Auth.Session.{sweep, auth_cookie, session_cookie}
use vm_vitals.Auth.Session.Valid.{session_valid-frame}
use vm_vitals.Auth.Session.Issue.{new_session-frame}
use vm_vitals.Auth.Register.{register_start, register_finish, later_clock}
use vm_vitals.Auth.Register.Begin.{register_start_cases}
use vm_vitals.Auth.Register.Outcome.{register_finish_cases}
use vm_vitals.Auth.Login.{login_start, login_finish, logout}
use vm_vitals.Auth.Login.Outcome.{left_over, login_start_cases, login_finish_cases}
use vm_vitals.Auth.Run.{
  Op, step, starts_registration, finishes_registration, starts_login, finishes_login, logs_out,
  checks, sweeps,
}

module _ (c : Crates) where
  open c use {Jar, RegisterCredential, LoginCredential, get_cookie}

  -- Requests and timers, one after another.
  unfoldable pub serve_all : List (Op c) → AuthState c → AuthState c
  serve_all [] a = a
  serve_all (op ∷ ops) a = serve_all ops (step c op a)

  -- What leaves the sign-in of a key alone: another sign-in that starts while the map is not full and
  -- this one has not expired, and draws another key; the finish of another one; a sweep before the
  -- expiry; and anything that is not about sign-ins.
  abbrev pub Spares : Text → ℕ → Op c → AuthState c → Type 0
  Spares aid exp (starts_registration env jar body) a = Unit
  Spares aid exp (finishes_registration env jar cred) a = Unit
  Spares aid exp (starts_login env jar) a =
      (length a.auth < max_ceremonies) × (hex32 env.random ≢ aid) × (env.clock 1 < exp)
  Spares aid exp (finishes_login env jar cred) a = get_cookie jar auth_cookie ≢ some aid
  Spares aid exp (logs_out jar) a = Unit
  Spares aid exp (checks now jar) a = Unit
  Spares aid exp (sweeps now) a = now < exp

  abbrev pub AllSpare : Text → ℕ → List (Op c) → AuthState c → Type 0
  AllSpare aid exp [] a = Unit
  AllSpare aid exp (op ∷ ops) a = Spares aid exp op a × AllSpare aid exp ops (step c op a)

  module _ (aid : Text) (p : PendingAuth c) where
    abbrev pub Pends : Map (PendingAuth c) → Type 0
    Pends m = Distinct m × (get aid m ≡ some p)

    Pends-remove : (k : Text) (m : Map (PendingAuth c)) → k ≢ aid → Pends m → Pends (remove k m)
    Pends-remove k m ne (d, there) =
        (remove-Distinct k m d, ground (arith, get-remove k aid m, text_eq_iff k aid))

    Pends-left_over :
        (o : Option Text) (m : Map (PendingAuth c))
        → o ≢ some aid
        → Pends m
        → Pends (left_over c o m)
    Pends-left_over none m ne h = h
    Pends-left_over (some k) m ne h = Pends-remove k m (λ e. ne (rw e refl)) h

    Pends-login_start :
        (env : Env) (jar : Jar) (a : AuthState c)
        → Spares aid p.expires (starts_login env jar) a
        → Pends a.auth
        → Pends (login_start c env jar a).0.auth
    Pends-login_start env jar a (small, other, fresh) (d, there) =
        elim (login_start_cases c env jar a) [
          | inl (rcr, state, claimed, start, e) ↦
              let q : PendingAuth c = record {
                state = state;
                expires = env.clock 0 + ceremony_ttl;
              } in
              rw e (
                insert_capped-Distinct (λ x. x.expires) (env.clock 1) (hex32 env.random) q a.auth d,
                insert_capped_keeps (λ x. x.expires) (env.clock 1) (hex32 env.random) aid q p a.auth
                    d small other there fresh,
              )
          | inr (x, e) ↦ rw e (d, there)
        ]

    Pends-login_finish :
        (env : Env) (jar : Jar) (cred : LoginCredential) (a : AuthState c)
        → get_cookie jar auth_cookie ≢ some aid
        → Pends a.auth
        → Pends (login_finish c env jar cred a).0.auth
    Pends-login_finish env jar cred a ne h = elim (login_finish_cases c env jar cred a) [
      | inl (b, e, s) ↦
          let (m, frame) = new_session-frame c (later_clock env) b in
          rw (e, frame, s.auth) (Pends-remove s.aid a.auth (λ k. ne (rw (← k) s.carried)) h)
      | inr (x, e) ↦ rw e (Pends-left_over (get_cookie jar auth_cookie) a.auth ne h)
    ]

    Pends-register_start :
        (env : Env) (jar : Jar) (body : Option (Option Text)) (a : AuthState c)
        → Pends a.auth
        → Pends (register_start c env jar body a).0.auth
    Pends-register_start env jar body a h = elim (register_start_cases c env jar body a) [
      | inl (b, ccr, e, s) ↦ rw (e, s.auth) h
      | inr (s, x, e, k) ↦ rw e h
    ]

    Pends-register_finish :
        (env : Env) (jar : Jar) (cred : RegisterCredential) (a : AuthState c)
        → Pends a.auth
        → Pends (register_finish c env jar cred a).0.auth
    Pends-register_finish env jar cred a h = elim (register_finish_cases c env jar cred a) [
      | inl (b, e, s, k) ↦
          let (m, frame) = new_session-frame c (later_clock env) b in rw (e, frame, s.auth) h
      | inr (b, x, e, k) ↦ rw (e, k.auth) h
    ]

    Pends-logout : (jar : Jar) (a : AuthState c) → Pends a.auth → Pends (logout c jar a).0.auth
    unfolding logout
    Pends-logout jar a h = elim (Option-cases (get_cookie jar session_cookie)) [
      | inl e ↦ rw (e, logout) h
      | inr (tok, e) ↦ rw (e, logout) h
    ]

    Pends-step :
        (op : Op c) (a : AuthState c)
        → Spares aid p.expires op a
        → Pends a.auth
        → Pends (step c op a).auth
    unfolding step sweep
    Pends-step (starts_registration env jar body) a q h = Pends-register_start env jar body a h
    Pends-step (finishes_registration env jar cred) a q h = Pends-register_finish env jar cred a h
    Pends-step (starts_login env jar) a q h = Pends-login_start env jar a q h
    Pends-step (finishes_login env jar cred) a q h = Pends-login_finish env jar cred a q h
    Pends-step (logs_out jar) a q h = Pends-logout jar a h
    Pends-step (checks now jar) a q h =
        let (s, e, k) = session_valid-frame c now jar a in rw (ap (λ b. b.auth) e) h
    Pends-step (sweeps now) a q (d, there) = (
      retain-Distinct _ a.auth d,
      ground (arith, get-retain (λ x. ltb now x.expires) aid a.auth d),
    )

    -- The ceremony is still there after all of them.
    pub Pends-serve_all :
        (ops : List (Op c)) (a : AuthState c)
        → AllSpare aid p.expires ops a
        → Pends a.auth
        → Pends (serve_all ops a).auth
    unfolding serve_all
    Pends-serve_all [] a s h = h
    Pends-serve_all (op ∷ ops) a (s, ss) h =
        Pends-serve_all ops (step c op a) ss (Pends-step op a s h)
