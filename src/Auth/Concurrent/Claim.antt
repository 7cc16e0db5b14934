-- ===== src/Auth/Concurrent/Claim.antt =====
-- auth.rs: a server that nobody has claimed, and requests that do not carry its enrolment code.
pub mod Closed
use vm_vitals.Base.{
  ℕ, zero, suc, ◌≡◌, refl, ap, sym, ◌∙◌, inl, inr, true, false, List, [], ◌∷◌, ◌++◌, Option, none,
  some, arith, All, All-push, Text, ok, err, is_empty, Option-cases, Map, get, remove, retain,
}
use vm_vitals.Base.Http.{Reject}
use vm_vitals.Auth.Crates.{Crates}
use vm_vitals.Auth.State.{AuthState, Env, RegMode, bootstrap, add_device}
use vm_vitals.Auth.Session.{session_valid, sweep, session_cookie, auth_cookie, reg_cookie}
use vm_vitals.Auth.Session.Valid.{Shrinks, Shrinks-nil, session_valid-frame}
use vm_vitals.Auth.Register.{register_start, no_ceremony, ceremony_expired}
use vm_vitals.Auth.Register.Begin.{CarriesCode, MayStart, register_start_cases}
use vm_vitals.Auth.Register.Steps.{take_registration-cases}
use vm_vitals.Auth.Login.{login_start, login_finish, logout}
use vm_vitals.Auth.Login.Outcome.{left_over-Shrinks, login_start_cases, login_finish_cases}
use vm_vitals.Auth.Run.{
  Op, step, enrols, starts_registration, finishes_registration, starts_login, finishes_login,
  logs_out, checks, sweeps,
}
use vm_vitals.Auth.Concurrent.{
  Place, arrived, verified, pushed, serialized, unsaved, saved, cleared, closed, answered, redeem,
  advance, advance_at, turn, System, Step, Reach, arrives, moves, serves, here, next,
}

module _ (c : Crates) where
  open c use {Jar, RegisterCredential, LoginCredential, get_cookie}

  -- Nobody is enrolled or signed in, nothing is under way, and the code waits.
  pub record Unclaimed (code : Text) (a : AuthState c) : Type 0 where
    pub passkeys : a.store.passkeys ≡ []
    pub bootstrap : a.bootstrap ≡ some code
    pub reg : a.reg ≡ []
    pub auth : a.auth ≡ []
    pub sessions : a.sessions ≡ []

  -- The operation does not carry the code.
  abbrev pub IsBlind : Text → Op c → Type 0
  IsBlind code (starts_registration env jar body) = ¬ CarriesCode c body code
  IsBlind code op = Unit

  MayStart-Unclaimed :
      (code : Text) (now : ℕ) (jar : Jar) (body : Option (Option Text)) (mode : RegMode)
      (a : AuthState c)
      → Unclaimed code a
      → MayStart c now jar body mode a
      → CarriesCode c body code
  MayStart-Unclaimed code now jar body bootstrap a u (e, code', stored, carried) =
      let same : code' ≡ code = ground (arith, stored, u.bootstrap) in rw (← same) carried
  MayStart-Unclaimed code now jar body add_device a u (h, s) =
      let h' = rw u.passkeys at h in absurd (ground arith)

  Unclaimed-sessions :
      (code : Text) (a : AuthState c) (m : Map ℕ)
      → Unclaimed code a
      → m ≡ []
      → Unclaimed code (record a { sessions = m })
  Unclaimed-sessions code a m u e = record {
    passkeys = u.passkeys;
    bootstrap = u.bootstrap;
    reg = u.reg;
    auth = u.auth;
    sessions = e;
  }

  register_start-Unclaimed :
      (code : Text) (env : Env) (jar : Jar) (body : Option (Option Text)) (a : AuthState c)
      → ¬ CarriesCode c body code
      → Unclaimed code a
      → Unclaimed code (register_start c env jar body a).0
  register_start-Unclaimed code env jar body a blind u =
      elim (register_start_cases c env jar body a) [
        | inl (b, ccr, e, s) ↦
            absurd (blind (MayStart-Unclaimed code (env.clock 0) jar body s.mode a u s.may_start))
        | inr (s, x, e, h) ↦ rw e (record {
          passkeys = u.passkeys;
          bootstrap = u.bootstrap;
          reg = u.reg;
          auth = u.auth;
          sessions = Shrinks-nil h u.sessions;
        })
      ]

  login_start-Unclaimed :
      (code : Text) (env : Env) (jar : Jar) (a : AuthState c)
      → Unclaimed code a
      → Unclaimed code (login_start c env jar a).0
  login_start-Unclaimed code env jar a u = elim (login_start_cases c env jar a) [
    | inl (rcr, state, claimed, start, e) ↦
        let claimed' = rw u.passkeys at claimed in absurd (ground arith)
    | inr (x, e) ↦ rw e u
  ]

  login_finish-Unclaimed :
      (code : Text) (env : Env) (jar : Jar) (cred : LoginCredential) (a : AuthState c)
      → Unclaimed code a
      → Unclaimed code (login_finish c env jar cred a).0
  unfolding get
  login_finish-Unclaimed code env jar cred a u = elim (login_finish_cases c env jar cred a) [
    | inl (b, e, s) ↦
        let started : get s.aid a.auth ≡ some s.pending = s.started in
        let started' = rw u.auth at started in absurd (ground arith)
    | inr (x, e) ↦ rw e (record {
      passkeys = u.passkeys;
      bootstrap = u.bootstrap;
      reg = u.reg;
      auth = Shrinks-nil (left_over-Shrinks c (get_cookie jar auth_cookie) a.auth) u.auth;
      sessions = u.sessions;
    })
  ]

  logout-Unclaimed :
      (code : Text) (jar : Jar) (a : AuthState c)
      → Unclaimed code a
      → Unclaimed code (logout c jar a).0
  unfolding logout remove
  logout-Unclaimed code jar a u = elim (Option-cases (get_cookie jar session_cookie)) [
    | inl e ↦ rw (logout, e) u
    | inr (tok, e) ↦
        rw (logout, e) (Unclaimed-sessions code a (remove tok a.sessions) u (rw u.sessions refl))
  ]

  sweep-Unclaimed :
      (code : Text) (now : ℕ) (a : AuthState c) → Unclaimed code a → Unclaimed code (sweep c now a)
  unfolding sweep retain
  sweep-Unclaimed code now a u = record {
    passkeys = u.passkeys;
    bootstrap = u.bootstrap;
    reg = rw u.reg refl;
    auth = rw u.auth refl;
    sessions = rw u.sessions refl;
  }

  pub step-Unclaimed :
      (code : Text) (op : Op c) (a : AuthState c)
      → enrols c op ≡ false
      → IsBlind code op
      → Unclaimed code a
      → Unclaimed code (step c op a)
  unfolding step
  step-Unclaimed code (starts_registration env jar body) a h blind u =
      register_start-Unclaimed code env jar body a blind u
  step-Unclaimed code (finishes_registration env jar cred) a h blind u = absurd (ground arith)
  step-Unclaimed code (starts_login env jar) a h blind u = login_start-Unclaimed code env jar a u
  step-Unclaimed code (finishes_login env jar cred) a h blind u =
      login_finish-Unclaimed code env jar cred a u
  step-Unclaimed code (logs_out jar) a h blind u = logout-Unclaimed code jar a u
  step-Unclaimed code (checks now jar) a h blind u =
      let (m, e, k) = session_valid-frame c now jar a in
      rw e (Unclaimed-sessions code a m u (Shrinks-nil k u.sessions))
  step-Unclaimed code (sweeps now) a h blind u = sweep-Unclaimed code now a u
