-- ===== src/Auth/Persist.antt =====
-- auth.rs, `AuthState::new` and `persist`: the credentials on disk.
pub mod Atomic
pub mod Files
use vm_vitals.Base.{
  ℕ, ◌≡◌, Bool, true, false, String, List, [], ◌∷◌, Option, none, some, if◌then◌else◌, Text, Result,
  ok, err, is_empty, take,
}
use vm_vitals.Base.Hex.{hex32}
use vm_vitals.Auth.Crates.{Crates}
use vm_vitals.Auth.State.{
  AuthState, Store, Env, Disk, Fault, no_fault, at_open, at_write, at_sync, at_rename,
}

-- The files after a write of `json` that meets the fault, and what `persist` returns: what the calls
-- in Auth/Persist/Files come to when no other save is between them. The rename replaces `auth.json` in
-- one step and takes the temporary file away.
unfoldable pub replace_file : Fault → Text → Disk → Disk × Result (Unit {0}) String
replace_file no_fault json d = (record { json = some json; tmp = none }, ok tt)
replace_file at_open json d = (d, err "creating auth.json.tmp")
replace_file (at_write n) json d = (record d { tmp = some (take n json) }, err "write_all")
replace_file at_sync json d = (record d { tmp = some json }, err "sync_all")
replace_file at_rename json d = (record d { tmp = some json }, err "replacing auth.json")

module _ (c : Crates) where
  open c use {to_string_pretty, from_str}

  write_store : Fault → Option Text → AuthState c → AuthState c × Result (Unit {0}) String
  unfolding replace_file
  write_store fault none a = (a, err "serializing the store")
  write_store fault (some json) a =
      let (d, r) = replace_file fault json a.disk in (record a { disk = d }, r)

  unfoldable pub persist : Fault → AuthState c → AuthState c × Result (Unit {0}) String
  unfolding write_store
  persist fault a = write_store fault (to_string_pretty (a.store.user_id, a.store.passkeys)) a

  -- `none` is a file that cannot be read.
  unfoldable pub parse_store : Option Text → Result (Store c) String
  parse_store none = err "reading auth.json"
  parse_store (some raw) = elim (from_str raw) [
    | none ↦ err "parsing auth.json — refusing to start with unreadable credentials"
    | some (uid, pks) ↦ ok (record { user_id = uid; passkeys = pks })
  ]

  unfoldable pub load_store : Bool → Option Text → Result (Store c) String
  unfolding parse_store
  load_store readable none = ok (record { user_id = none; passkeys = [] })
  load_store readable (some raw) = parse_store (if readable then some raw else none)

  unfoldable pub fresh_state : Env → Disk → Store c → AuthState c
  fresh_state env d s = record {
    store = s;
    disk = d;
    reg = [];
    auth = [];
    sessions = [];
    bootstrap = if is_empty s.passkeys then some (hex32 env.random) else none;
  }

  unfoldable pub start_with : Env → Disk → Result (Store c) String → Result (AuthState c) String
  unfolding fresh_state
  start_with env d (err e) = err e
  start_with env d (ok s) = ok (fresh_state env d s)

  -- `setup` is what the parsing of the origin, the builder of webauthn-rs and the creation of the
  -- data directory come to; `readable` whether `auth.json` can be read.
  unfoldable pub new : Env → Result (Unit {0}) String → Bool → Disk → Result (AuthState c) String
  unfolding load_store start_with
  new env (err e) readable d = err e
  new env (ok _) readable d = start_with env d (load_store readable d.json)
