-- ===== src/Auth/Register/Begin.antt =====
-- auth.rs, `register_start`: its outcomes.
use vm_vitals.Base.{
  ℕ, ◌+◌, ◌≡◌, refl, ◌⊎◌, inl, inr, false, [], Option, none, some, arith, Bool-cases, Text, trim,
  as_bytes, Map, ok, err, Result-cases, is_empty-cases, is_empty, unwrap_or, and_then,
}
use vm_vitals.Base.Hex.{hex32}
use vm_vitals.Base.Http.{Status, Reject}
use vm_vitals.Web.Compare.{ct_eq, ct_eq_iff}
use vm_vitals.Auth.Crates.{Crates}
use vm_vitals.Auth.State.{AuthState, Env, RegMode, bootstrap, add_device, ceremony_ttl}
use vm_vitals.Auth.Ceremony.{insert_capped}
use vm_vitals.Auth.Session.{reg_cookie, build_cookie}
use vm_vitals.Auth.Session.Valid.{Shrinks, same, SignedIn, session_valid-cases, session_valid-frame}
use vm_vitals.Auth.Register.{
  check_code, exclude_list, authorise_start, start_ceremony, register_start, admin_exists,
}

module _ (c : Crates) where
  open c use {
    Passkey, Registration, Creation, Jar, get_cookie, start_passkey_registration, add_cookie,
  }

  -- The body carries the enrolment code, up to white space around it.
  abbrev pub CarriesCode : Option (Option Text) → Text → Type 0
  CarriesCode body code =
      as_bytes (trim (unwrap_or (and_then body (λ token. token)) [])) ≡ as_bytes code

  -- Why a registration may start: nobody is enrolled and the request carries the enrolment code, or
  -- somebody is and the request is signed in.
  abbrev pub MayStart : ℕ → Jar → Option (Option Text) → RegMode → AuthState c → Type 0
  MayStart now jar body bootstrap a =
      (a.store.passkeys ≡ []) × (code : Text) × (a.bootstrap ≡ some code) × CarriesCode body code
  MayStart now jar body add_device a =
      (is_empty a.store.passkeys ≡ false) × SignedIn c now jar a.sessions

  pub record Started (env : Env) (jar : Jar) (body : Option (Option Text)) (a b : AuthState c)
      : Type 0 where
    pub mode : RegMode
    pub state : Registration
    pub may_start : MayStart (env.clock 0) jar body mode a
    pub passkeys : b.store.passkeys ≡ a.store.passkeys
    pub disk : b.disk ≡ a.disk
    pub auth : b.auth ≡ a.auth
    pub code : b.bootstrap ≡ a.bootstrap
    pub sessions : Shrinks a.sessions b.sessions
    pub reg :
        b.reg
        ≡ insert_capped
            (λ p. p.expires)
            (env.clock 2)
            (hex32 env.random)
            (record { state = state; mode = mode; expires = env.clock 1 + ceremony_ttl })
            a.reg

  check_code_sound :
      (code : Option Text) (body : Option (Option Text))
      → check_code bootstrap code body ≡ ok tt
      → (t : Text) × (code ≡ some t) × CarriesCode body t
  unfolding check_code
  check_code_sound none body h = absurd (ground arith)
  check_code_sound (some t) body h =
      elim (Bool-cases
        (ct_eq (as_bytes (trim (unwrap_or (and_then body (λ token. token)) []))) (as_bytes t))) [
          | inl e ↦ (t, refl, (ct_eq_iff _ _).0 e)
          | inr e ↦ absurd (ground arith)
        ]

  -- The mode that was authorised, with the reason; or a refusal.
  authorise_start-cases :
      (now : ℕ) (jar : Jar) (body : Option (Option Text)) (a : AuthState c)
      → ((mode : RegMode) × (s : Map ℕ) × (authorise_start c now jar body a
            ≡ (record a { sessions = s }, ok mode))
          × Shrinks a.sessions s
          × MayStart now jar body mode a)
        ⊎ ((s : Map ℕ) × (e : Reject) × (authorise_start c now jar body a
              ≡ (record a { sessions = s }, err e))
            × Shrinks a.sessions s)
  unfolding authorise_start
  authorise_start-cases now jar body a = elim (is_empty-cases a.store.passkeys) [
    | inl none_yet ↦
        let (s, frame, h) = session_valid-frame c now jar a in
        elim (Result-cases (check_code bootstrap a.bootstrap body)) [
          | inl (_, good) ↦
              let (code, stored, carried) = check_code_sound a.bootstrap body good in
              inl (bootstrap, s, rw (frame, none_yet, good), h, (none_yet, code, stored, carried))
          | inr (e, bad) ↦ inr (s, e, rw (frame, none_yet, bad), h)
        ]
    | inr some_yet ↦ elim (session_valid-cases c now jar a) [
      | inl (v, signed) ↦
          inl (
            add_device,
            a.sessions,
            rw (v, authorise_start, some_yet),
            same refl,
            (some_yet, signed),
          )
      | inr (s, v, h) ↦ inr (s, admin_exists, rw (v, authorise_start, some_yet), h)
    ]
  ]

  start_ceremony-cases :
      (env : Env) (a : AuthState c)
      → ((uid : ℕ) × (ccr : Creation) × (state : Registration) × (start_ceremony c env a ≡ (
        record a { store = record { user_id = some uid; passkeys = a.store.passkeys } },
        ok (ccr, state),
      )))
        ⊎ ((e : Reject) × (start_ceremony c env a ≡ (a, err e)))
  unfolding start_ceremony
  start_ceremony-cases env a =
      elim (Result-cases (
        start_passkey_registration env.seed (unwrap_or a.store.user_id env.uuid)
          (exclude_list c a.store.passkeys))) [
            | inl ((ccr, state), e) ↦
                let uid = unwrap_or a.store.user_id (unwrap_or a.store.user_id env.uuid) in
                inl (uid, ccr, state, rw e)
            | inr (x, e) ↦ inr ((Status.internal_server_error, x), rw e)
          ]

  -- Either a ceremony starts, authorised now, and its cookie is handed out; or the request is refused
  -- and at most one session is gone: all else is as before, the pending ceremonies too.
  pub register_start_cases :
      (env : Env) (jar : Jar) (body : Option (Option Text)) (a : AuthState c)
      → ((b : AuthState c) × (ccr : Creation) × (register_start c env jar body a
            ≡ (b, ok (add_cookie jar (build_cookie reg_cookie (hex32 env.random)), ccr)))
          × Started env jar body a b)
        ⊎ ((s : Map ℕ) × (e : Reject) × (register_start c env jar body a
              ≡ (record a { sessions = s }, err e))
            × Shrinks a.sessions s)
  unfolding register_start
  register_start_cases env jar body a = elim (authorise_start-cases (env.clock 0) jar body a) [
    | inr (s, e, v, h) ↦ inr (s, e, rw v, h)
    | inl (mode, s, v, h, may) ↦ elim (start_ceremony-cases env (record a { sessions = s })) [
      | inr (e, w) ↦ inr (s, e, rw (v, w), h)
      | inl (uid, ccr, state, w) ↦ inl (
        record a {
          store = record { user_id = some uid; passkeys = a.store.passkeys };
          reg =
              insert_capped (λ p. p.expires) (env.clock 2) (hex32 env.random)
                (record { state = state; mode = mode; expires = env.clock 1 + ceremony_ttl }) a.reg;
          sessions = s;
        },
        ccr,
        rw (v, w),
        record {
          mode = mode;
          state = state;
          may_start = may;
          passkeys = refl;
          disk = refl;
          auth = refl;
          code = refl;
          sessions = h;
          reg = refl;
        },
      )
    ]
  ]
