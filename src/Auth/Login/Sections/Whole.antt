-- ===== src/Auth/Login/Sections/Whole.antt =====
-- auth.rs, `login_finish`: the sections of a sign-in, one after another, are the whole handler.
use vm_vitals.Base.{
  ℕ, zero, suc, ◌≡◌, ◌∙◌, ap, sym, refl, inl, inr, Option-cases, Result, ok, err, Result-cases,
  map_err,
}
use vm_vitals.Base.Http.{
  Status, Reject, Handler, ◌>>=◌, ◌>>◌, pure, lift, modify, and_then_handler,
  and_then_handler_assoc,
}
use vm_vitals.Auth.Crates.{Crates}
use vm_vitals.Auth.State.{AuthState, Env}
use vm_vitals.Auth.Session.{auth_cookie}
use vm_vitals.Auth.Persist.{persist, replace_file}
use vm_vitals.Auth.Register.{issue_session, later_clock}
use vm_vitals.Auth.Login.{take_authentication, advance_counters, try_persist, login_finish}
use vm_vitals.Auth.Login.Sections.{
  LoginPlace, entered, proven, advanced, writing, written, replied, prove, advance_login,
}

module _ (c : Crates) where
  open c use {
    AuthenticationResult, Authentication, Jar, LoginCredential, get_cookie, to_string_pretty,
    finish_passkey_authentication,
  }

  -- The sections of one sign-in, with no other request between them.
  unfoldable pub login_alone : ℕ → LoginPlace c → AuthState c → AuthState c × LoginPlace c
  unfolding advance_login
  login_alone zero p a = (a, p)
  login_alone (suc n) p a = let (b, q) = advance_login c p a in login_alone n q b

  login_alone-replied :
      (n : ℕ) (r : Result (Jar × Status) Reject) (a : AuthState c)
      → login_alone n (replied r) a ≡ (a, replied r)
  unfolding login_alone
  login_alone-replied zero r a = refl
  login_alone-replied (suc n) r a = login_alone-replied n r a

  login_alone-advance :
      (n : ℕ) (p q : LoginPlace c) (a b : AuthState c)
      → advance_login c p a ≡ (b, q)
      → login_alone (suc n) p a ≡ login_alone n q b
  unfolding login_alone
  login_alone-advance n p q a b h = rw h refl

  abbrev pub replies : AuthState c × Result (Jar × Status) Reject → AuthState c × LoginPlace c
  replies (a, r) = (a, replied r)

  -- From the written counters on.
  issues : Env → Jar → Handler (AuthState c) (Jar × Status)
  issues env jar = do
    jar' ← issue_session c (later_clock env) auth_cookie jar
    pure (jar', Status.ok)

  login_alone-written :
      (n : ℕ) (env : Env) (jar : Jar) (a : AuthState c)
      → login_alone (suc n) (written env jar) a ≡ replies (issues env jar a)
  unfolding advance_login issues
  login_alone-written n env jar a =
      login_alone-advance n (written env jar) _ a _ refl ∙ login_alone-replied n _ _

  login_alone-advanced :
      (env : Env) (jar : Jar) (a : AuthState c)
      → login_alone 3 (advanced env jar) a ≡ replies (issues env jar (try_persist c env a))
  unfolding advance_login try_persist persist
  login_alone-advanced env jar a =
      elim (Option-cases (to_string_pretty (a.store.user_id, a.store.passkeys))) [
        | inl e ↦
            login_alone-advance 2 (advanced env jar) (written env jar) a a (rw e refl)
            ∙ login_alone-written 1 env jar a
            ∙ ap (λ b. replies (issues env jar b))
                (sym (let same : (persist c env.fault a).0 ≡ a = rw e refl in same))
        | inr (json, e) ↦
            let b : AuthState c = record a { disk = (replace_file env.fault json a.disk).0 } in
            login_alone-advance 2 (advanced env jar) (writing env jar json) a a (rw e refl)
            ∙ login_alone-advance 1 (writing env jar json) (written env jar) a b refl
            ∙ login_alone-written 0 env jar b
            ∙ ap (λ x. replies (issues env jar x))
                (sym (let same : (persist c env.fault a).0 ≡ b = rw e refl in same))
      ]

  -- From the positive result on.
  abbrev after_prove :
      Env
      → Jar
      → AuthState c × Result AuthenticationResult Reject
      → AuthState c × Result (Jar × Status) Reject
  after_prove env jar (b, ok result) =
      issues env jar (try_persist c env (advance_counters c result b))
  after_prove env jar (b, err e) = (b, err e)

  -- The handler, from there on.
  advance_tail : Env → Jar → AuthenticationResult → Handler (AuthState c) (Jar × Status)
  unfolding issues
  advance_tail env jar result = do
    modify (advance_counters c result)
    modify (try_persist c env)
    issues env jar

  advance_tail-after_prove :
      (env : Env) (jar : Jar) (x : AuthState c × Result AuthenticationResult Reject)
      → and_then_handler x (advance_tail env jar) ≡ after_prove env jar x
  unfolding advance_tail
  advance_tail-after_prove env jar (b, ok result) = refl
  advance_tail-after_prove env jar (b, err e) = refl

  -- What is verified once the ceremony is found.
  abbrev verify : LoginCredential → Authentication → Handler (AuthState c) AuthenticationResult
  verify cred auth_state =
      lift (map_err (λ e. (Status.unauthorized, e)) (finish_passkey_authentication cred auth_state))

  login_finish-prove :
      (env : Env) (jar : Jar) (cred : LoginCredential) (a : AuthState c)
      → login_finish c env jar cred a
        ≡ and_then_handler (prove c env jar cred a) (advance_tail env jar)
  unfolding login_finish prove advance_tail
  login_finish-prove env jar cred a = elim (Option-cases (get_cookie jar auth_cookie)) [
    | inl e ↦ rw e refl
    | inr (aid, e) ↦ rw e (
        sym (
          and_then_handler_assoc (take_authentication c (env.clock 0) aid a) (verify cred)
            (advance_tail env jar)))
  ]

  -- A sign-in whose sections no other request interrupts does what the handler does as a whole: its
  -- five sections leave the same state and give the same answer.
  pub login_alone-login_finish :
      (env : Env) (jar : Jar) (cred : LoginCredential) (a : AuthState c)
      → login_alone 5 (entered env jar cred) a ≡ replies (login_finish c env jar cred a)
  unfolding advance_login
  login_alone-login_finish env jar cred a =
      let cut : after_prove env jar (prove c env jar cred a) ≡ login_finish c env jar cred a =
        sym (advance_tail-after_prove env jar (prove c env jar cred a))
        ∙ sym (login_finish-prove env jar cred a) in
      let b = (prove c env jar cred a).0 in
      elim (Result-cases (prove c env jar cred a).1) [
        | inl (result, r) ↦
            login_alone-advance 4 (entered env jar cred) (proven env jar result) a b (rw r refl)
            ∙ login_alone-advance 3 (proven env jar result) (advanced env jar) b
                (advance_counters c result b) refl
            ∙ login_alone-advanced env jar (advance_counters c result b)
            ∙ ap (λ s. replies (after_prove env jar (b, s))) (sym r)
            ∙ ap replies cut
        | inr (x, r) ↦
            login_alone-advance 4 (entered env jar cred) (replied (err x)) a b (rw r refl)
            ∙ login_alone-replied 4 (err x) b
            ∙ ap (λ s. replies (after_prove env jar (b, s))) (sym r)
            ∙ ap replies cut
      ]
