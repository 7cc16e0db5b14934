-- ===== src/Auth/Run/Access.antt =====
-- auth.rs, `register_finish`: who gets in, and with what session.
use vm_vitals.Base.{ℕ, ◌+◌, ◌≤◌, ◌<◌, ◌≡◌, inl, inr, false, arith, length, is_empty, ok, err}
use vm_vitals.Base.Hex.{hex32}
use vm_vitals.Base.Http.{Status, Reject}
use vm_vitals.Auth.Crates.{Crates, JarKeeps}
use vm_vitals.Auth.State.{AuthState, Env, RegMode, bootstrap, add_device, session_ttl, max_sessions}
use vm_vitals.Auth.Session.{new_session, clear_cookie, reg_cookie}
use vm_vitals.Auth.Session.Valid.{SignedIn, Shrinks}
use vm_vitals.Auth.Session.Issue.{issued_expiry, new_session_bounds}
use vm_vitals.Auth.Register.{register_finish, later_clock}
use vm_vitals.Auth.Register.Outcome.{register_finish_cases}
use vm_vitals.Auth.Register.Steps.{Authorised}

module _ (c : Crates) where
  open c use {Jar, RegisterCredential}

  not-Authorised :
      (now : ℕ) (jar : Jar) (mode : RegMode) (a : AuthState c)
      → is_empty a.store.passkeys ≡ false
      → ¬ SignedIn c now jar a.sessions
      → ¬ Authorised c now jar mode a.store.passkeys a.sessions
  not-Authorised now jar bootstrap a claimed out e = ground arith
  not-Authorised now jar add_device a claimed out s = out s

  -- Once somebody is enrolled, a request that is not signed in when it finishes enrols nobody and
  -- gets no session, whichever ceremony it redeems and whenever that was started.
  pub register_finish-claimed :
      (env : Env) (jar : Jar) (cred : RegisterCredential) (a : AuthState c)
      → is_empty a.store.passkeys ≡ false
      → ¬ SignedIn c (env.clock 1) jar a.sessions
      → (b : AuthState c) × (e : Reject) × (register_finish c env jar cred a ≡ (b, err e))
        × (b.store ≡ a.store)
        × (b.disk.json ≡ a.disk.json)
        × Shrinks a.sessions b.sessions
  register_finish-claimed env jar cred a claimed out =
      elim (register_finish_cases c env jar cred a) [
        | inl (b, e, s, _) ↦
            absurd (not-Authorised (env.clock 1) jar s.pending.mode a claimed out s.authorised)
        | inr (b, x, e, k) ↦ (b, x, e, k.store, k.json, k.sessions)
      ]

  -- The jar of a response with a new session signs its bearer in until the session expires.
  issued-SignedIn :
      JarKeeps c
      → (env : Env) (jar : Jar) (b : AuthState c) (now : ℕ) → length b.sessions ≤ max_sessions
      → now < issued_expiry c env b
      → SignedIn c now (c.add_cookie jar (new_session c env b).1) (new_session c env b).0.sessions
  unfolding new_session
  issued-SignedIn keeps env jar b now bound fresh = record {
    token = hex32 env.random;
    expires = issued_expiry c env b;
    carried = keeps jar (new_session c env b).1;
    held = (new_session_bounds c env b bound).1;
    fresh = fresh;
  }

  -- A registration that succeeds returns a session that is valid for `SESSION_TTL` from the last
  -- reading of its clock.
  pub register_finish-SignedIn :
      JarKeeps c
      → (env : Env) (jar jar' : Jar) (cred : RegisterCredential) (a b : AuthState c) (st : Status)
      → length a.sessions ≤ max_sessions
      → register_finish c env jar cred a ≡ (b, ok (jar', st))
      → (now : ℕ) → now < env.clock (2 + length a.sessions) + session_ttl
      → SignedIn c now jar' b.sessions
  unfolding later_clock
  register_finish-SignedIn keeps env jar jar' cred a b st bound h now fresh =
      elim (register_finish_cases c env jar cred a) [
        | inl (d, e, s, se) ↦
            let b_is : b ≡ (new_session c (later_clock env) d).0 = ground (arith, h, e) in
            let jar_is : jar'
                ≡ c.add_cookie (c.remove_cookie jar (clear_cookie reg_cookie))
                    (new_session c (later_clock env) d).1 =
              ground (arith, h, e) in
            rw (b_is, jar_is)
              (issued-SignedIn keeps (later_clock env) _ d now (rw se bound) (rw se fresh))
        | inr (d, x, e, k) ↦ absurd (ground (arith, e, h))
      ]
