-- ===== src/Auth/State.antt =====
-- auth.rs, `Store`, `RegMode`, `PendingReg`, `PendingAuth`, `AuthState`, and what a request draws
-- from outside. The release build aborts on a panic, so no lock is ever poisoned in it; where the
-- source answers to a poisoned lock, the lock is an `Option`.
use vm_vitals.Base.{ℕ, ◌*◌, List, Option, Map, Text}
use vm_vitals.Auth.Crates.{Crates}

-- Seconds: `SESSION_TTL` and `CEREMONY_TTL`.
abbrev pub session_ttl : ℕ
session_ttl = 60 * 60 * 12

abbrev pub ceremony_ttl : ℕ
ceremony_ttl = 300

abbrev pub max_ceremonies : ℕ
max_ceremonies = 1024

abbrev pub max_sessions : ℕ
max_sessions = 1024

pub data RegMode : Type 0 where
  bootstrap add_device : RegMode

-- The two files of `persist`, by what they hold: `auth.json`, and the temporary file beside it.
pub record Disk : Type 0 where
  pub json : Option Text
  pub tmp : Option Text

-- Where a write of `auth.json` fails, if it does: at opening the temporary file, after a number of
-- its characters, at `sync_all`, or at `rename`.
pub data Fault : Type 0 where
  no_fault at_open at_sync at_rename : Fault
  at_write : ℕ → Fault

-- What one request draws from outside: `clock k` is the time that its k-th call of
-- `SystemTime::now` reads, which need not increase with k; `random` the bytes of `hex32`; `uuid`
-- what `Uuid::new_v4` returns; `seed` the randomness of webauthn-rs; `fault` how the write goes.
pub record Env : Type 0 where
  pub clock : ℕ → ℕ
  pub random : List ℕ
  pub uuid : ℕ
  pub seed : ℕ
  pub fault : Fault

module _ (c : Crates) where
  open c use {Passkey, Registration, Authentication}

  pub record Store : Type 0 where
    pub user_id : Option ℕ
    pub passkeys : List Passkey

  pub record PendingReg : Type 0 where
    pub state : Registration
    pub mode : RegMode
    pub expires : ℕ

  pub record PendingAuth : Type 0 where
    pub state : Authentication
    pub expires : ℕ

  pub record AuthState : Type 0 where
    pub store : Store
    pub disk : Disk
    pub reg : Map PendingReg
    pub auth : Map PendingAuth
    pub sessions : Map ℕ
    pub bootstrap : Option Text
