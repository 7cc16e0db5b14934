-- ===== src/Auth/Concurrent.antt =====
-- auth.rs, `register_finish` and `login_finish`: requests in flight at once. Each lock is held for one
-- section of a handler, so requests interleave section by section, with one another and with the
-- requests and timers of Auth/Run, which are served whole.
pub mod Alone
pub mod Effect
pub mod Counts
pub mod Unique
pub mod Lost
pub mod Claim
use vm_vitals.Base.{
  ℕ, zero, suc, ◌≡◌, false, List, [], ◌∷◌, ◌++◌, Option, none, some, String, Text, Result, ok, err,
  map_err, ok_or,
}
use vm_vitals.Base.Http.{Status, Reject, Handler, ◌>>=◌, ◌>>◌, pure, lift}
use vm_vitals.Auth.Crates.{Crates}
use vm_vitals.Auth.State.{AuthState, Env, RegMode, bootstrap, add_device}
use vm_vitals.Auth.Session.{reg_cookie}
use vm_vitals.Auth.Persist.{replace_file}
use vm_vitals.Auth.Register.{
  take_registration, enrol, roll_back, issue_session, later_clock, no_ceremony, not_saved,
}
use vm_vitals.Auth.Login.Sections.{LoginPlace, entered, advance_login}
use vm_vitals.Auth.Run.{Op, step, enrols}

module _ (c : Crates) where
  open c use {
    Passkey, Jar, RegisterCredential, LoginCredential, get_cookie, finish_passkey_registration,
    to_string_pretty,
  }

  -- Where a request stands: before the lock of the ceremonies, with the verified credential, with
  -- the credential pushed, with the text to be written, with a save that failed, with one that
  -- succeeded, with the ceremonies cleared, before its new session, and at its answer; or it is a
  -- sign-in, at one of its own places.
  pub data Place : Type 0 where
    arrived : Env → Jar → RegisterCredential → Place
    verified : Env → Jar → RegMode → Passkey → Place
    pushed : Env → Jar → RegMode → Place
    serialized : Env → Jar → RegMode → Text → Place
    unsaved : String → Place
    saved : Env → Jar → RegMode → Place
    cleared : Env → Jar → Place
    closed : Env → Jar → Place
    answered : Result (Jar × Status) Reject → Place
    login : LoginPlace c → Place

  -- Up to the verified credential; the lock of the ceremonies is the only one.
  unfoldable pub redeem : Env → Jar → RegisterCredential → Handler (AuthState c) (RegMode × Passkey)
  unfolding take_registration
  redeem env jar cred = do
    rid ← lift (ok_or (get_cookie jar reg_cookie) no_ceremony)
    (reg_state, mode) ← take_registration c (env.clock 0) rid
    passkey ←
        lift (map_err (λ e. (Status.bad_request, e)) (finish_passkey_registration cred reg_state))
    pure (mode, passkey)

  -- An early return answers.
  abbrev pub go_on : {A : Type 0} → Result A Reject → (A → Place) → Place
  go_on (ok x) k = k x
  go_on (err e) k = answered (err e)

  abbrev pub to_write : Env → Jar → RegMode → Option Text → Place
  to_write env jar mode none = unsaved "serializing the store"
  to_write env jar mode (some json) = serialized env jar mode json

  abbrev pub to_close : Env → Jar → RegMode → Result (Unit {0}) String → Place
  to_close env jar mode (ok _) = saved env jar mode
  to_close env jar mode (err e) = unsaved e

  -- The next section of a request: in `persist` the lock of the store is held for the text alone.
  unfoldable pub advance : Place → AuthState c → AuthState c × Place
  unfolding redeem enrol roll_back later_clock replace_file advance_login
  advance (arrived env jar cred) a =
      let (b, r) = redeem env jar cred a in (b, go_on r (λ p. verified env jar p.0 p.1))
  advance (verified env jar mode pk) a =
      let (b, r) = enrol c (env.clock 1) jar mode pk a in (b, go_on r (λ _. pushed env jar mode))
  advance (pushed env jar mode) a =
      (a, to_write env jar mode (to_string_pretty (a.store.user_id, a.store.passkeys)))
  advance (serialized env jar mode json) a =
      let (d, r) = replace_file env.fault json a.disk in
      (record a { disk = d }, to_close env jar mode r)
  advance (unsaved e) a = let (b, _) = roll_back c (err e) a in (b, answered (err not_saved))
  advance (saved env jar bootstrap) a = (record a { reg = [] }, cleared env jar)
  advance (saved env jar add_device) a = (a, closed env jar)
  advance (cleared env jar) a = (record a { bootstrap = none }, closed env jar)
  advance (closed env jar) a =
      let (b, r) = issue_session c (later_clock env) reg_cookie jar a in
      (b, go_on r (λ j. answered (ok (j, Status.ok))))
  advance (answered r) a = (a, answered r)
  advance (login p) a = let (b, q) = advance_login c p a in (b, login q)

  -- The shared state, and the requests that finish a registration or a sign-in, in the order in
  -- which they arrived.
  pub record System : Type 0 where
    pub state : AuthState c
    pub requests : List Place

  -- The n-th request runs its next section; there may be none.
  unfoldable pub advance_at : ℕ → List Place → AuthState c → AuthState c × List Place
  unfolding advance
  advance_at n [] a = (a, [])
  advance_at zero (p ∷ ps) a = let (b, q) = advance p a in (b, q ∷ ps)
  advance_at (suc n) (p ∷ ps) a = let (b, qs) = advance_at n ps a in (b, p ∷ qs)

  unfoldable pub turn : ℕ → System → System
  unfolding advance_at
  turn n s = let (b, qs) = advance_at n s.requests s.state in record { state = b; requests = qs }

  -- Turns in the given order.
  unfoldable pub turns : List ℕ → System → System
  unfolding turn
  turns [] s = s
  turns (n ∷ ns) s = turns ns (turn n s)

  -- Beside them anything but the finish of a registration is served whole.
  pub data Step (s t : System) : Type 0 where
    arrives :
        (env : Env) (jar : Jar) (cred : RegisterCredential)
        → t ≡ record s { requests = s.requests ++ arrived env jar cred ∷ [] }
        → Step s t
    enters :
        (env : Env) (jar : Jar) (cred : LoginCredential)
        → t ≡ record s { requests = s.requests ++ login (entered env jar cred) ∷ [] }
        → Step s t
    moves : (n : ℕ) → t ≡ turn n s → Step s t
    serves :
        (op : Op c) → enrols c op ≡ false → t ≡ record s { state = step c op s.state } → Step s t

  pub data Reach (s : System) : System → Type 0 where
    here : Reach s s
    next : {t u : System} → Reach s t → Step t u → Reach s u
