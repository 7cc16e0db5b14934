-- ===== src/Auth/Concurrent/Alone.antt =====
-- auth.rs, `register_finish`: the sections of a request, one after another, are the whole handler.
pub mod Finish
use vm_vitals.Base.{
  ℕ, zero, suc, ◌+◌, ◌≡◌, ◌∙◌, ap, sym, refl, inl, inr, none, some, Option-cases, String, Result,
  map_err, ok, err, Result-cases, Bool-cases,
}
use vm_vitals.Base.Http.{
  Status, Reject, Handler, ◌>>=◌, ◌>>◌, pure, lift, modify, and_then_handler,
  and_then_handler_assoc,
}
use vm_vitals.Auth.Crates.{Crates}
use vm_vitals.Auth.State.{AuthState, Env, RegMode, bootstrap, add_device}
use vm_vitals.Auth.Session.{reg_cookie}
use vm_vitals.Auth.Persist.{persist, replace_file}
use vm_vitals.Auth.Register.{
  register_finish, save_credential, close_bootstrap, issue_session, later_clock, enrol, not_saved,
  roll_back, take_registration,
}
use vm_vitals.Auth.Concurrent.{
  Place, arrived, verified, pushed, serialized, unsaved, saved, cleared, closed, answered, redeem,
  advance,
}

module _ (c : Crates) where
  open c use {
    Passkey, Registration, Jar, RegisterCredential, to_string_pretty, get_cookie,
    finish_passkey_registration,
  }

  -- The sections of one request, with no other request between them.
  unfoldable pub alone : ℕ → Place c → AuthState c → AuthState c × Place c
  unfolding advance
  alone zero p a = (a, p)
  alone (suc n) p a = let (b, q) = advance c p a in alone n q b

  pub alone-answered :
      (n : ℕ) (r : Result (Jar × Status) Reject) (a : AuthState c)
      → alone n (answered r) a ≡ (a, answered r)
  unfolding alone
  alone-answered zero r a = refl
  alone-answered (suc n) r a = alone-answered n r a

  -- One section.
  pub alone-advance :
      (n : ℕ) (p q : Place c) (a b : AuthState c)
      → advance c p a ≡ (b, q)
      → alone (suc n) p a ≡ alone n q b
  unfolding alone
  alone-advance n p q a b h = rw h refl

  -- What a request that ran to its end leaves, and its answer.
  abbrev pub end : AuthState c × Result (Jar × Status) Reject → AuthState c × Place c
  end (a, r) = (a, answered r)

  -- From the saved credential on.
  abbrev pub finish_saved :
      Env → Jar → RegMode → AuthState c → AuthState c × Result (Jar × Status) Reject
  finish_saved env jar mode a =
      let (b, r) = issue_session c (later_clock env) reg_cookie jar (close_bootstrap c mode a) in
      elim r [ ok j ↦ (b, ok (j, Status.ok)) | err e ↦ (b, err e) ]

  pub alone-saved :
      (env : Env) (jar : Jar) (mode : RegMode) (a : AuthState c)
      → alone 3 (saved env jar mode) a ≡ end (finish_saved env jar mode a)
  unfolding alone close_bootstrap
  alone-saved env jar bootstrap a = refl
  alone-saved env jar add_device a = refl

  -- From the end of the save on, and from the push on.
  abbrev pub after_save :
      Env
      → Jar
      → RegMode
      → AuthState c × Result (Unit {0}) Reject
      → AuthState c × Result (Jar × Status) Reject
  after_save env jar mode (b, ok _) = finish_saved env jar mode b
  after_save env jar mode (b, err e) = (b, err e)

  abbrev pub finish_pushed :
      Env → Jar → RegMode → AuthState c → AuthState c × Result (Jar × Status) Reject
  finish_pushed env jar mode a = after_save env jar mode (save_credential c env a)

  save_credential-roll_back :
      (env : Env) (a b : AuthState c) (r : Result (Unit {0}) String)
      → persist c env.fault a ≡ (b, r)
      → save_credential c env a ≡ roll_back c r b
  unfolding save_credential
  save_credential-roll_back env a b r h = rw h refl

  -- A save that failed takes one section more.
  alone-unsaved :
      (n : ℕ) (env : Env) (jar : Jar) (mode : RegMode) (x : String) (a b : AuthState c)
      → persist c env.fault a ≡ (b, err x)
      → alone (suc n) (unsaved x) b ≡ end (finish_pushed env jar mode a)
  unfolding advance roll_back
  alone-unsaved n env jar mode x a b h =
      alone-advance n (unsaved x) (answered (err not_saved)) b (roll_back c (err x) b).0 refl
      ∙ alone-answered n (err not_saved) (roll_back c (err x) b).0
      ∙ ap (λ s. end (after_save env jar mode s))
          (sym (save_credential-roll_back env a b (err x) h))

  pub alone-pushed :
      (env : Env) (jar : Jar) (mode : RegMode) (a : AuthState c)
      → alone 5 (pushed env jar mode) a ≡ end (finish_pushed env jar mode a)
  unfolding advance persist
  alone-pushed env jar mode a =
      elim (Option-cases (to_string_pretty (a.store.user_id, a.store.passkeys))) [
        | inl e ↦
            alone-advance 4 (pushed env jar mode) (unsaved "serializing the store") a a (rw e refl)
            ∙ alone-unsaved 3 env jar mode "serializing the store" a a (rw e refl)
        | inr (json, e) ↦
            let written : AuthState c = record a {
              disk = (replace_file env.fault json a.disk).0;
            } in
            alone-advance 4 (pushed env jar mode) (serialized env jar mode json) a a (rw e refl)
            ∙ elim (Result-cases (replace_file env.fault json a.disk).1) [
              | inl (_, r) ↦
                  alone-advance 3 (serialized env jar mode json) (saved env jar mode) a written
                    (rw r refl)
                  ∙ alone-saved env jar mode written
                  ∙ ap (λ s. end (after_save env jar mode s))
                      (sym (save_credential-roll_back env a written (ok tt) (rw (e, r) refl)))
              | inr (x, r) ↦
                  alone-advance 3 (serialized env jar mode json) (unsaved x) a written (rw r refl)
                  ∙ alone-unsaved 2 env jar mode x a written (rw (e, r) refl)
            ]
      ]

  -- From the verified credential on.
  abbrev pub after_enrol :
      Env
      → Jar
      → RegMode
      → AuthState c × Result (Unit {0}) Reject
      → AuthState c × Result (Jar × Status) Reject
  after_enrol env jar mode (b, ok _) = finish_pushed env jar mode b
  after_enrol env jar mode (b, err e) = (b, err e)

  pub alone-verified :
      (env : Env) (jar : Jar) (mode : RegMode) (pk : Passkey) (a : AuthState c)
      → alone 6 (verified env jar mode pk) a
        ≡ end (after_enrol env jar mode (enrol c (env.clock 1) jar mode pk a))
  unfolding advance
  alone-verified env jar mode pk a =
      let b = (enrol c (env.clock 1) jar mode pk a).0 in
      elim (Result-cases (enrol c (env.clock 1) jar mode pk a).1) [
        | inl (_, r) ↦
            alone-advance 5 (verified env jar mode pk) (pushed env jar mode) a b (rw r refl)
            ∙ alone-pushed env jar mode b
            ∙ ap (λ s. end (after_enrol env jar mode (b, s))) (sym r)
        | inr (x, r) ↦
            alone-advance 5 (verified env jar mode pk) (answered (err x)) a b (rw r refl)
            ∙ alone-answered 5 (err x) b
            ∙ ap (λ s. end (after_enrol env jar mode (b, s))) (sym r)
      ]

  abbrev pub after_redeem :
      Env
      → Jar
      → AuthState c × Result (RegMode × Passkey) Reject
      → AuthState c × Result (Jar × Status) Reject
  after_redeem env jar (b, ok (mode, pk)) =
      after_enrol env jar mode (enrol c (env.clock 1) jar mode pk b)
  after_redeem env jar (b, err e) = (b, err e)
