-- ===== src/Auth/Concurrent/Effect.antt =====
-- auth.rs, `register_finish`: what a section does to the enrolled credentials.
use vm_vitals.Base.{
  ℕ, ◌≡◌, refl, inl, inr, false, [], ◌∷◌, ◌++◌, Option-cases, Map, remove, drop_last, any, ok, err,
  Result-cases,
}
use vm_vitals.Auth.Crates.{Crates, UpdateKeepsId}
use vm_vitals.Auth.State.{AuthState, Env, RegMode, bootstrap, add_device, PendingReg}
use vm_vitals.Auth.Session.{reg_cookie}
use vm_vitals.Auth.Session.Issue.{new_session-frame}
use vm_vitals.Auth.Persist.{replace_file}
use vm_vitals.Auth.Register.{later_clock}
use vm_vitals.Auth.Register.Steps.{Authorised, enrol-cases, take_registration-cases}
use vm_vitals.Auth.Login.Sections.{advance_login-ids}
use vm_vitals.Auth.Run.Invariant.{ids}
use vm_vitals.Auth.Concurrent.{
  Place, arrived, verified, pushed, serialized, unsaved, saved, cleared, closed, answered, redeem,
  login, advance,
}

module _ (c : Crates) where
  open c use {
    Passkey, Jar, RegisterCredential, to_string_pretty, get_cookie, finish_passkey_registration,
    cred_eq, cred_id,
  }

  -- A request's own credential, while it is in the list or was left there.
  abbrev pub held : Place c → ℕ
  held (arrived env jar cred) = 0
  held (verified env jar mode pk) = 0
  held (pushed env jar mode) = 1
  held (serialized env jar mode json) = 1
  held (unsaved x) = 1
  held (saved env jar mode) = 1
  held (cleared env jar) = 1
  held (closed env jar) = 1
  held (answered (ok r)) = 1
  held (answered (err e)) = 0
  held (login p) = 0

  -- The credentials before and after a section that goes from the one place to the other.
  pub data Effect (p q : Place c) (a b : AuthState c) : Type 0 where
    keeps : ids c b.store.passkeys ≡ ids c a.store.passkeys → held q ≡ held p → Effect p q a b
    pushes :
        (now : ℕ) (jar : Jar) (mode : RegMode) (pk : Passkey)
        → Authorised c now jar mode a.store.passkeys a.sessions
        → any (λ x. cred_eq (cred_id x) (cred_id pk)) a.store.passkeys ≡ false
        → b.store.passkeys ≡ a.store.passkeys ++ pk ∷ []
        → held p ≡ 0
        → held q ≡ 1
        → Effect p q a b
    pops : b.store.passkeys ≡ drop_last a.store.passkeys → held p ≡ 1 → held q ≡ 0 → Effect p q a b

  redeem-frame :
      (env : Env) (jar : Jar) (cred : RegisterCredential) (a : AuthState c)
      → (m : Map (PendingReg c)) × ((redeem c env jar cred a).0 ≡ record a { reg = m })
  unfolding redeem
  redeem-frame env jar cred a = elim (Option-cases (get_cookie jar reg_cookie)) [
    | inl e ↦ (a.reg, rw e refl)
    | inr (rid, e) ↦ elim (take_registration-cases c (env.clock 0) rid a) [
      | inl n ↦ (a.reg, rw (e, n) refl)
      | inr (inl n) ↦ (remove rid a.reg, rw (e, n) refl)
      | inr (inr (p, n, _, _)) ↦ elim (Result-cases (finish_passkey_registration cred p.state)) [
        | inl (pk, v) ↦ (remove rid a.reg, rw (e, n, v) refl)
        | inr (x, v) ↦ (remove rid a.reg, rw (e, n, v) refl)
      ]
    ]
  ]

  pub advance-Effect :
      UpdateKeepsId c
      → (p : Place c) (a : AuthState c) → Effect p (advance c p a).1 a (advance c p a).0
  unfolding advance
  advance-Effect upd (arrived env jar cred) a =
      let (m, frame) = redeem-frame env jar cred a in
      elim (Result-cases (redeem c env jar cred a).1) [
        | inl (r, e) ↦ keeps (rw frame refl) (rw e refl)
        | inr (x, e) ↦ keeps (rw frame refl) (rw e refl)
      ]
  advance-Effect upd (verified env jar mode pk) a =
      elim (enrol-cases c (env.clock 1) jar mode pk a) [
        | inl (e, may, new) ↦ pushes (env.clock 1) jar mode pk may new (rw e refl) refl (rw e refl)
        | inr (s, x, e, h) ↦ keeps (rw e refl) (rw e refl)
      ]
  advance-Effect upd (pushed env jar mode) a =
      elim (Option-cases (to_string_pretty (a.store.user_id, a.store.passkeys))) [
        | inl e ↦ keeps refl (rw e refl)
        | inr (json, e) ↦ keeps refl (rw e refl)
      ]
  advance-Effect upd (serialized env jar mode json) a =
      elim (Result-cases (replace_file env.fault json a.disk).1) [
        | inl (_, e) ↦ keeps refl (rw e refl)
        | inr (x, e) ↦ keeps refl (rw e refl)
      ]
  advance-Effect upd (unsaved x) a = pops refl refl refl
  advance-Effect upd (saved env jar bootstrap) a = keeps refl refl
  advance-Effect upd (saved env jar add_device) a = keeps refl refl
  advance-Effect upd (cleared env jar) a = keeps refl refl
  advance-Effect upd (closed env jar) a =
      let (m, frame) = new_session-frame c (later_clock env) a in keeps (rw frame refl) refl
  advance-Effect upd (answered (ok r)) a = keeps refl refl
  advance-Effect upd (answered (err e)) a = keeps refl refl
  advance-Effect upd (login p) a = keeps (advance_login-ids c upd p a) refl
