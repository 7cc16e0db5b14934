-- ===== src/Auth/Run.antt =====
-- auth.rs as a whole: the requests and timers that change the state, and restarts.
pub mod Invariant
pub mod Smaller
pub mod Preserve
pub mod Steps
pub mod Restart
pub mod Access
pub mod Pending
pub mod Once
pub mod History
use vm_vitals.Base.{ℕ, ◌≡◌, Bool, true, false, String, Option, Text, Result, ok}
use vm_vitals.Auth.Crates.{Crates}
use vm_vitals.Auth.State.{AuthState, Env}
use vm_vitals.Auth.Session.{session_valid, sweep}
use vm_vitals.Auth.Persist.{new}
use vm_vitals.Auth.Register.{register_start, register_finish}
use vm_vitals.Auth.Login.{login_start, login_finish, logout}

module _ (c : Crates) where
  open c use {Jar, RegisterCredential, LoginCredential}

  -- `checks` is a page or an API request that only looks at the session.
  pub data Op : Type 0 where
    starts_registration : Env → Jar → Option (Option Text) → Op
    finishes_registration : Env → Jar → RegisterCredential → Op
    starts_login : Env → Jar → Op
    finishes_login : Env → Jar → LoginCredential → Op
    logs_out : Jar → Op
    checks : ℕ → Jar → Op
    sweeps : ℕ → Op

  unfoldable pub step : Op → AuthState c → AuthState c
  step (starts_registration env jar body) a = (register_start c env jar body a).0
  step (finishes_registration env jar cred) a = (register_finish c env jar cred a).0
  step (starts_login env jar) a = (login_start c env jar a).0
  step (finishes_login env jar cred) a = (login_finish c env jar cred a).0
  step (logs_out jar) a = (logout c jar a).0
  step (checks now jar) a = (session_valid c now jar a).0
  step (sweeps now) a = sweep c now a

  -- Whether an operation may change which credentials are enrolled.
  abbrev pub enrols : Op → Bool
  enrols (starts_registration env jar body) = false
  enrols (finishes_registration env jar cred) = true
  enrols (starts_login env jar) = false
  enrols (finishes_login env jar cred) = false
  enrols (logs_out jar) = false
  enrols (checks now jar) = false
  enrols (sweeps now) = false

  -- A request that is served to its end, or a restart from what is on disk. The disk changes in
  -- `persist` alone, so a crash inside a request leaves a disk that a request with some fault leaves.
  pub data Step (a b : AuthState c) : Type 0 where
    serves : (op : Op) → b ≡ step op a → Step a b
    restarts :
        (env : Env) (setup : Result (Unit {0}) String) (readable : Bool)
        → new c env setup readable a.disk ≡ ok b
        → Step a b

  pub data Reach (a : AuthState c) : AuthState c → Type 0 where
    here : Reach a a
    next : {b d : AuthState c} → Reach a b → Step b d → Reach a d
