-- ===== src/Auth/Concurrent/Alone/Finish.antt =====
-- auth.rs, `register_finish` and `login_finish`: the sections of a handler, one after the other.
use vm_vitals.Base.{
  ℕ, zero, suc, ◌≡◌, ◌∙◌, ap, sym, refl, inl, inr, Option-cases, Result, map_err, ok, err,
  Result-cases,
}
use vm_vitals.Base.Http.{
  Status, Reject, Handler, ◌>>=◌, ◌>>◌, pure, lift, modify, and_then_handler,
  and_then_handler_assoc,
}
use vm_vitals.Auth.Crates.{Crates}
use vm_vitals.Auth.State.{AuthState, Env, RegMode}
use vm_vitals.Auth.Session.{reg_cookie}
use vm_vitals.Auth.Register.{
  register_finish, save_credential, close_bootstrap, issue_session, later_clock, enrol,
  take_registration,
}
use vm_vitals.Auth.Login.{login_finish}
use vm_vitals.Auth.Login.Sections.{LoginPlace, entered, replied, advance_login}
use vm_vitals.Auth.Login.Sections.Whole.{login_alone, login_alone-login_finish}
use vm_vitals.Auth.Concurrent.{Place, login, arrived, verified, answered, redeem, advance}
use vm_vitals.Auth.Concurrent.Alone.{
  alone, end, alone-advance, alone-answered, alone-verified, after_save, after_enrol, after_redeem,
}

module _ (c : Crates) where
  open c use {
    Passkey, Registration, Jar, RegisterCredential, LoginCredential, to_string_pretty, get_cookie,
    finish_passkey_registration,
  }

  -- The handler, cut at the ends of its sections.
  close_tail : Env → Jar → RegMode → Handler (AuthState c) (Jar × Status)
  close_tail env jar mode = do
    modify (close_bootstrap c mode)
    jar' ← issue_session c (later_clock env) reg_cookie jar
    pure (jar', Status.ok)

  save_tail : Env → Jar → RegMode → Handler (AuthState c) (Jar × Status)
  unfolding close_tail
  save_tail env jar mode = do save_credential c env; close_tail env jar mode

  enrol_tail : Env → Jar → RegMode × Passkey → Handler (AuthState c) (Jar × Status)
  unfolding save_tail
  enrol_tail env jar (mode, pk) = do enrol c (env.clock 1) jar mode pk; save_tail env jar mode

  close_tail-after_save :
      (env : Env) (jar : Jar) (mode : RegMode) (x : AuthState c × Result (Unit {0}) Reject)
      → and_then_handler x (λ _. close_tail env jar mode) ≡ after_save c env jar mode x
  unfolding close_tail
  close_tail-after_save env jar mode (b, ok _) = refl
  close_tail-after_save env jar mode (b, err e) = refl

  save_tail-after_enrol :
      (env : Env) (jar : Jar) (mode : RegMode) (x : AuthState c × Result (Unit {0}) Reject)
      → and_then_handler x (λ _. save_tail env jar mode) ≡ after_enrol c env jar mode x
  unfolding save_tail
  save_tail-after_enrol env jar mode (b, ok _) =
      close_tail-after_save env jar mode (save_credential c env b)
  save_tail-after_enrol env jar mode (b, err e) = refl

  enrol_tail-after_redeem :
      (env : Env) (jar : Jar) (x : AuthState c × Result (RegMode × Passkey) Reject)
      → and_then_handler x (enrol_tail env jar) ≡ after_redeem c env jar x
  unfolding enrol_tail
  enrol_tail-after_redeem env jar (b, ok (mode, pk)) =
      save_tail-after_enrol env jar mode (enrol c (env.clock 1) jar mode pk b)
  enrol_tail-after_redeem env jar (b, err e) = refl

  -- What is verified once the ceremony is found.
  abbrev verify : RegisterCredential → Registration → Handler (AuthState c) Passkey
  verify cred reg_state =
      lift (map_err (λ e. (Status.bad_request, e)) (finish_passkey_registration cred reg_state))

  verify_assoc :
      (cred : RegisterCredential) (k : RegMode × Passkey → Handler (AuthState c) (Jar × Status))
      (x : AuthState c × Result (Registration × RegMode) Reject)
      → and_then_handler x (λ p. verify cred p.0 >>= λ pk. k (p.1, pk))
        ≡ and_then_handler (and_then_handler x (λ p. verify cred p.0 >>= λ pk. pure (p.1, pk))) k
  verify_assoc cred k (b, ok (reg_state, mode)) =
      sym (and_then_handler_assoc (verify cred reg_state b) (λ pk. pure (mode, pk)) k)
  verify_assoc cred k (b, err e) = refl

  register_finish-redeem :
      (env : Env) (jar : Jar) (cred : RegisterCredential) (a : AuthState c)
      → register_finish c env jar cred a
        ≡ and_then_handler (redeem c env jar cred a) (enrol_tail env jar)
  unfolding register_finish redeem enrol_tail
  register_finish-redeem env jar cred a = elim (Option-cases (get_cookie jar reg_cookie)) [
    | inl e ↦ rw e refl
    | inr (rid, e) ↦
        rw e (verify_assoc cred (enrol_tail env jar) (take_registration c (env.clock 0) rid a))
  ]

  alone-register_finish :
      (env : Env) (jar : Jar) (cred : RegisterCredential) (a : AuthState c)
      → alone c 7 (arrived env jar cred) a ≡ end c (register_finish c env jar cred a)
  unfolding advance
  alone-register_finish env jar cred a =
      let cut : after_redeem c env jar (redeem c env jar cred a)
          ≡ register_finish c env jar cred a =
        sym (enrol_tail-after_redeem env jar (redeem c env jar cred a))
        ∙ sym (register_finish-redeem env jar cred a) in
      let b = (redeem c env jar cred a).0 in
      elim (Result-cases (redeem c env jar cred a).1) [
        | inl ((mode, pk), r) ↦
            alone-advance c 6 (arrived env jar cred) (verified env jar mode pk) a b (rw r refl)
            ∙ alone-verified c env jar mode pk b
            ∙ ap (λ s. end c (after_redeem c env jar (b, s))) (sym r)
            ∙ ap (end c) cut
        | inr (x, r) ↦
            alone-advance c 6 (arrived env jar cred) (answered (err x)) a b (rw r refl)
            ∙ alone-answered c 6 (err x) b
            ∙ ap (λ s. end c (after_redeem c env jar (b, s))) (sym r)
            ∙ ap (end c) cut
      ]

  alone-login :
      (n : ℕ) (p : LoginPlace c) (a : AuthState c)
      → alone c n (login p) a ≡ (let (b, q) = login_alone c n p a in (b, login q))
  unfolding alone login_alone advance
  alone-login zero p a = refl
  alone-login (suc n) p a = alone-login n (advance_login c p a).1 (advance_login c p a).0

  abbrev pub end_login : AuthState c × Result (Jar × Status) Reject → AuthState c × Place c
  end_login (a, r) = (a, login (replied r))

  -- A request whose sections no other request interrupts does what its handler does as a whole: the
  -- seven sections of the finish of a registration, and the five of a sign-in, leave the same state
  -- and give the same answer.
  pub alone-handlers :
      (env : Env) (jar : Jar) (cred : RegisterCredential) (proof : LoginCredential)
      (a : AuthState c)
      → (alone c 7 (arrived env jar cred) a ≡ end c (register_finish c env jar cred a))
        × (alone c 5 (login (entered env jar proof)) a ≡ end_login (login_finish c env jar proof a))
  alone-handlers env jar cred proof a = (
    alone-register_finish env jar cred a,
    alone-login 5 (entered env jar proof) a
        ∙ ap (λ s. (s.0, login s.1)) (login_alone-login_finish c env jar proof a),
  )
