-- ===== src/Auth/Register/Steps.antt =====
-- auth.rs, `register_finish`: the outcomes of its steps.
use vm_vitals.Base.{
  ℕ, ◌<◌, ◌≡◌, refl, ◌⊎◌, inl, inr, true, false, List, [], ◌∷◌, ◌++◌, none, some, arith, leb,
  Bool-cases, Option-cases, Text, Map, get, remove, ok, err, is_empty-cases, any, drop_last-push,
}
use vm_vitals.Base.Http.{Reject}
use vm_vitals.Auth.Crates.{Crates}
use vm_vitals.Auth.State.{AuthState, Env, Disk, RegMode, bootstrap, add_device, PendingReg}
use vm_vitals.Auth.Session.{reg_cookie}
use vm_vitals.Auth.Session.Valid.{Shrinks, same, without, SignedIn, session_valid-cases}
use vm_vitals.Auth.Persist.Atomic.{persist-atomic}
use vm_vitals.Auth.Register.{
  take_registration, allowed, enrol, save_credential, close_bootstrap, already_enrolled,
  admin_exists, not_saved, ceremony_expired,
}

module _ (c : Crates) where
  open c use {
    Passkey, Registration, RegisterCredential, Jar, cred_id, cred_eq, get_cookie,
    finish_passkey_registration, to_string_pretty,
  }

  -- The requester may enrol: nobody is enrolled, or the request is signed in.
  abbrev pub Authorised : ℕ → Jar → RegMode → List Passkey → Map ℕ → Type 0
  Authorised now jar bootstrap passkeys sessions = passkeys ≡ []
  Authorised now jar add_device passkeys sessions = SignedIn c now jar sessions

  -- The state after an error: credentials, pending sign-ins, enrolment code and `auth.json` as they
  -- were, and no more than one registration and one session gone.
  pub record Kept (a b : AuthState c) : Type 0 where
    pub store : b.store ≡ a.store
    pub auth : b.auth ≡ a.auth
    pub bootstrap : b.bootstrap ≡ a.bootstrap
    pub json : b.disk.json ≡ a.disk.json
    pub reg : Shrinks a.reg b.reg
    pub sessions : Shrinks a.sessions b.sessions

  allowed-cases :
      (now : ℕ) (jar : Jar) (mode : RegMode) (a : AuthState c)
      → ((allowed c now jar mode a ≡ (a, ok true))
          × Authorised now jar mode a.store.passkeys a.sessions)
        ⊎ ((s : Map ℕ) × (allowed c now jar mode a ≡ (record a { sessions = s }, ok false))
            × Shrinks a.sessions s)
  unfolding allowed
  allowed-cases now jar bootstrap a = elim (is_empty-cases a.store.passkeys) [
    | inl e ↦ inl (rw e, e)
    | inr f ↦ inr (a.sessions, rw f, same refl)
  ]
  allowed-cases now jar add_device a = elim (session_valid-cases c now jar a) [
    | inl (e, s) ↦ inl (rw e, s)
    | inr (s, e, h) ↦ inr (s, rw e, h)
  ]

  -- The ceremony that a successful request redeemed, and the state before the new session.
  pub record Enrolled (env : Env) (jar : Jar) (cred : RegisterCredential) (a b : AuthState c)
      : Type 0 where
    pub rid : Text
    pub pending : PendingReg c
    pub passkey : Passkey
    pub json : Text
    pub carried : get_cookie jar reg_cookie ≡ some rid
    pub started : get rid a.reg ≡ some pending
    pub fresh : env.clock 0 < pending.expires
    pub verified : finish_passkey_registration cred pending.state ≡ ok passkey
    pub authorised : Authorised (env.clock 1) jar pending.mode a.store.passkeys a.sessions
    pub unknown : any (λ p. cred_eq (cred_id p) (cred_id passkey)) a.store.passkeys ≡ false
    pub user_id : b.store.user_id ≡ a.store.user_id
    pub passkeys : b.store.passkeys ≡ a.store.passkeys ++ passkey ∷ []
    pub written : to_string_pretty (b.store.user_id, b.store.passkeys) ≡ some json
    pub saved : b.disk.json ≡ some json
    pub auth : b.auth ≡ a.auth
    pub reg : b.reg ≡ elim pending.mode [ bootstrap ↦ [] | add_device ↦ remove rid a.reg ]
    pub code : b.bootstrap ≡ elim pending.mode [ bootstrap ↦ none | add_device ↦ a.bootstrap ]

  pub Kept-refl : (a : AuthState c) → Kept a a
  Kept-refl a = record {
    store = refl;
    auth = refl;
    bootstrap = refl;
    json = refl;
    reg = same refl;
    sessions = same refl;
  }

  pub Kept-sessions :
      (a : AuthState c) (s : Map ℕ) → Shrinks a.sessions s → Kept a (record a { sessions = s })
  Kept-sessions a s h = record {
    store = refl;
    auth = refl;
    bootstrap = refl;
    json = refl;
    reg = same refl;
    sessions = h;
  }

  pub Kept-part :
      (a : AuthState c) (rid : Text) (s : Map ℕ) (d : Disk)
      → Shrinks a.sessions s
      → d.json ≡ a.disk.json
      → Kept a (record a { disk = d; reg = remove rid a.reg; sessions = s })
  Kept-part a rid s d h j = record {
    store = refl;
    auth = refl;
    bootstrap = refl;
    json = j;
    reg = without rid refl;
    sessions = h;
  }

  -- `enrol`: the credential is pushed by an authorised request, or nothing but the sessions changes.
  pub enrol-cases :
      (now : ℕ) (jar : Jar) (mode : RegMode) (pk : Passkey) (a : AuthState c)
      → ((enrol c now jar mode pk a ≡ (
        record a {
          store = record { user_id = a.store.user_id; passkeys = a.store.passkeys ++ pk ∷ [] };
        },
        ok tt,
      ))
          × Authorised now jar mode a.store.passkeys a.sessions
          × (any (λ p. cred_eq (cred_id p) (cred_id pk)) a.store.passkeys ≡ false))
        ⊎ ((s : Map ℕ) × (e : Reject) × (enrol c now jar mode pk a
              ≡ (record a { sessions = s }, err e))
            × Shrinks a.sessions s)
  unfolding enrol
  enrol-cases now jar mode pk a = elim (allowed-cases now jar mode a) [
    | inl (e, s) ↦
        elim (Bool-cases (any (λ p. cred_eq (cred_id p) (cred_id pk)) a.store.passkeys)) [
          | inl t ↦ inr (a.sessions, already_enrolled, rw (e, enrol, t), same refl)
          | inr f ↦ inl (rw (e, enrol, f), s, f)
        ]
    | inr (s, e, h) ↦ inr (s, admin_exists, rw (e, enrol), h)
  ]

  -- After a push: the credentials are on disk, or the push is undone.
  pub save-cases :
      (env : Env) (pk : Passkey) (a : AuthState c)
      → let pushed : AuthState c = record a {
        store = record { user_id = a.store.user_id; passkeys = a.store.passkeys ++ pk ∷ [] };
      } in
        ((d : Disk) × (json : Text) × (save_credential c env pushed
            ≡ (record pushed { disk = d }, ok tt))
          × (to_string_pretty (a.store.user_id, a.store.passkeys ++ pk ∷ []) ≡ some json)
          × (d.json ≡ some json))
        ⊎ ((d : Disk) × (e : Reject) × (save_credential c env pushed
              ≡ (record a { disk = d }, err e))
            × (d.json ≡ a.disk.json))
  unfolding save_credential
  save-cases env pk a =
      let pushed : AuthState c = record a {
        store = record { user_id = a.store.user_id; passkeys = a.store.passkeys ++ pk ∷ [] };
      } in
      let (d, e, how) = persist-atomic c env.fault pushed in
      elim how [
        | inl (json, r, w, j) ↦ inl (d, json, rw (e, r, save_credential), w, j)
        | inr (x, r, j, _) ↦ inr (d, not_saved, rw (e, r, save_credential, drop_last-push), j)
      ]

  pub close_bootstrap-fields :
      (mode : RegMode) (a : AuthState c)
      → let b = close_bootstrap c mode a in
        (b.store ≡ a.store)
        × (b.disk ≡ a.disk)
        × (b.auth ≡ a.auth)
        × (b.sessions ≡ a.sessions)
        × (b.reg ≡ elim mode [ bootstrap ↦ [] | add_device ↦ a.reg ])
        × (b.bootstrap ≡ elim mode [ bootstrap ↦ none | add_device ↦ a.bootstrap ])
  unfolding close_bootstrap
  close_bootstrap-fields bootstrap a = (refl, refl, refl, refl, refl, refl)
  close_bootstrap-fields add_device a = (refl, refl, refl, refl, refl, refl)

  -- A ceremony is removed and handed over, removed because it has expired, or not there.
  pub take_registration-cases :
      (now : ℕ) (rid : Text) (a : AuthState c)
      → (take_registration c now rid a ≡ (a, err ceremony_expired))
        ⊎ (take_registration c now rid a
            ≡ (record a { reg = remove rid a.reg }, err ceremony_expired))
        ⊎ ((p : PendingReg c) × (take_registration c now rid a
              ≡ (record a { reg = remove rid a.reg }, ok (p.state, p.mode)))
            × (get rid a.reg ≡ some p)
            × (now < p.expires))
  unfolding take_registration
  take_registration-cases now rid a = elim (Option-cases (get rid a.reg)) [
    | inl n ↦ inl (rw n)
    | inr (p, started) ↦ elim (Bool-cases (leb p.expires now)) [
      | inl late ↦ inr (inl (rw (started, late)))
      | inr fresh ↦ inr (inr (p, rw (started, fresh), started, ground arith))
    ]
  ]
