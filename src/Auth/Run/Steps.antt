-- ===== src/Auth/Run/Steps.antt =====
-- auth.rs: the invariant over steps and histories.
use vm_vitals.Base.{ℕ, refl, inl, inr, Option, Option-cases, Text, Map, remove}
use vm_vitals.Auth.Crates.{Crates, CredEqual, UpdateKeepsId, JsonRoundTrip}
use vm_vitals.Auth.State.{AuthState, Env}
use vm_vitals.Auth.Session.{session_valid, sweep, session_cookie, auth_cookie}
use vm_vitals.Auth.Session.Valid.{Shrinks, without, session_valid-frame}
use vm_vitals.Auth.Register.{register_start, register_finish, later_clock}
use vm_vitals.Auth.Register.Begin.{register_start_cases}
use vm_vitals.Auth.Register.Steps.{Kept-sessions}
use vm_vitals.Auth.Register.Outcome.{register_finish_cases}
use vm_vitals.Auth.Login.{login_finish, logout}
use vm_vitals.Auth.Login.Outcome.{left_over, left_over-Shrinks, login_finish_cases}
use vm_vitals.Auth.Run.{
  Op, step, Reach, starts_registration, finishes_registration, starts_login, finishes_login,
  logs_out, checks, sweeps, serves, restarts, here, next,
}
use vm_vitals.Auth.Run.Invariant.{Inv}
use vm_vitals.Auth.Run.Smaller.{
  Smaller-refl, Smaller-Shrinks, Smaller-retain, Inv-Smaller, Inv-Kept,
}
use vm_vitals.Auth.Run.Preserve.{Inv-new_session, Inv-Started, Inv-Enrolled}
use vm_vitals.Auth.Run.Preserve.SignIn.{Inv-SignsIn, Inv-login_start}
use vm_vitals.Auth.Run.Restart.{Inv-restart}

module _ (c : Crates) where
  open c use {Jar, RegisterCredential, LoginCredential, get_cookie}

  -- Only sessions go.
  Inv-sessions :
      (a : AuthState c) (s : Map ℕ)
      → Inv c a
      → Shrinks a.sessions s
      → Inv c (record a { sessions = s })
  Inv-sessions a s inv h =
      Inv-Smaller c inv (record a { sessions = s }) refl refl refl
        (Smaller-refl a.reg inv.reg_distinct) (Smaller-refl a.auth inv.auth_distinct)
        (Smaller-Shrinks a.sessions inv.sessions_distinct h)

  Inv-logout : (jar : Jar) (a : AuthState c) → Inv c a → Inv c (logout c jar a).0
  unfolding logout
  Inv-logout jar a inv = elim (Option-cases (get_cookie jar session_cookie)) [
    | inl e ↦ rw (e, logout) inv
    | inr (tok, e) ↦ rw (e, logout) (Inv-sessions a (remove tok a.sessions) inv (without tok refl))
  ]

  Inv-checks :
      (now : ℕ) (jar : Jar) (a : AuthState c) → Inv c a → Inv c (session_valid c now jar a).0
  Inv-checks now jar a inv =
      let (s, e, h) = session_valid-frame c now jar a in rw e (Inv-sessions a s inv h)

  Inv-sweep : (now : ℕ) (a : AuthState c) → Inv c a → Inv c (sweep c now a)
  unfolding sweep
  Inv-sweep now a inv =
      Inv-Smaller c inv _ refl refl refl (Smaller-retain a.reg inv.reg_distinct _)
        (Smaller-retain a.auth inv.auth_distinct _)
        (Smaller-retain a.sessions inv.sessions_distinct _)

  Inv-register_start :
      (env : Env) (jar : Jar) (body : Option (Option Text)) (a : AuthState c)
      → Inv c a
      → Inv c (register_start c env jar body a).0
  Inv-register_start env jar body a inv = elim (register_start_cases c env jar body a) [
    | inl (b, ccr, e, s) ↦ rw e (Inv-Started c env jar body a b inv s)
    | inr (s, x, e, h) ↦ rw e (Inv-Kept c inv (Kept-sessions c a s h))
  ]

  module _ (eq : CredEqual c) (upd : UpdateKeepsId c) (round : JsonRoundTrip c) where
    Inv-register_finish :
        (env : Env) (jar : Jar) (cred : RegisterCredential) (a : AuthState c)
        → Inv c a
        → Inv c (register_finish c env jar cred a).0
    Inv-register_finish env jar cred a inv = elim (register_finish_cases c env jar cred a) [
      | inl (b, e, s, se) ↦
          let (i, claimed) = Inv-Enrolled c eq round env jar cred a b inv s se in
          rw e (Inv-new_session c (later_clock env) b i claimed)
      | inr (b, x, e, k) ↦ rw e (Inv-Kept c inv k)
    ]

    Inv-login_finish :
        (env : Env) (jar : Jar) (cred : LoginCredential) (a : AuthState c)
        → Inv c a
        → Inv c (login_finish c env jar cred a).0
    Inv-login_finish env jar cred a inv = elim (login_finish_cases c env jar cred a) [
      | inl (b, e, s) ↦
          let (i, claimed) = Inv-SignsIn c upd round env jar cred a b inv s in
          rw e (Inv-new_session c (later_clock env) b i claimed)
      | inr (x, e) ↦ rw e (
          let carried = get_cookie jar auth_cookie in
          Inv-Smaller c inv (record a { auth = left_over c carried a.auth }) refl refl refl
            (Smaller-refl a.reg inv.reg_distinct)
            (Smaller-Shrinks a.auth inv.auth_distinct (left_over-Shrinks c carried a.auth))
            (Smaller-refl a.sessions inv.sessions_distinct))
    ]

    -- Each request and timer keeps the invariant, on every branch.
    pub step-Inv : (op : Op c) (a : AuthState c) → Inv c a → Inv c (step c op a)
    unfolding step
    step-Inv (starts_registration env jar body) a inv = Inv-register_start env jar body a inv
    step-Inv (finishes_registration env jar cred) a inv = Inv-register_finish env jar cred a inv
    step-Inv (starts_login env jar) a inv = Inv-login_start c env jar a inv
    step-Inv (finishes_login env jar cred) a inv = Inv-login_finish env jar cred a inv
    step-Inv (logs_out jar) a inv = Inv-logout jar a inv
    step-Inv (checks now jar) a inv = Inv-checks now jar a inv
    step-Inv (sweeps now) a inv = Inv-sweep now a inv

    -- So it holds after any history of requests, timers and restarts, each request served to its end.
    pub Reach-Inv : {a b : AuthState c} → Inv c a → Reach c a b → Inv c b
    Reach-Inv inv here = inv
    Reach-Inv inv (next r (serves op e)) = rw e (step-Inv op _ (Reach-Inv inv r))
    Reach-Inv inv (next r (restarts env setup readable e)) =
        (Inv-restart c _ _ env setup readable (Reach-Inv inv r) e).0
