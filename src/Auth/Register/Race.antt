-- ===== src/Auth/Register/Race.antt =====
-- auth.rs, `register_finish`: two requests whose sections interleave. The lock of the store is held
-- for the push, and taken again for the pop after a failed save; between the two another request may
-- push.
use vm_vitals.Base.{
  ℕ, ◌≡◌, ap, ◌∙◌, inl, inr, List, [], ◌∷◌, ◌++◌, String, ok, err, arith, drop_last-push,
}
use vm_vitals.Auth.Crates.{Crates}
use vm_vitals.Auth.State.{AuthState, Env, RegMode}
use vm_vitals.Auth.Persist.{persist}
use vm_vitals.Auth.Persist.Atomic.{persist-atomic}
use vm_vitals.Auth.Register.{enrol, roll_back, save_credential, not_saved}
use vm_vitals.Auth.Register.Steps.{enrol-cases}

module _ (c : Crates) where
  open c use {Passkey, Jar}

  pub enrol-pushes :
      (now : ℕ) (jar : Jar) (mode : RegMode) (pk : Passkey) (a b : AuthState c)
      → enrol c now jar mode pk a ≡ (b, ok tt)
      → b.store.passkeys ≡ a.store.passkeys ++ pk ∷ []
  enrol-pushes now jar mode pk a b h = elim (enrol-cases c now jar mode pk a) [
    | inl (e, _, _) ↦
        let b_is : b ≡ record a {
          store = record { user_id = a.store.user_id; passkeys = a.store.passkeys ++ pk ∷ [] };
        } =
          ground (arith, e, h) in
        rw b_is
    | inr (s, x, e, _) ↦ absurd (ground (arith, e, h))
  ]

  save_credential-pops :
      (env : Env) (a : AuthState c) (pk : Passkey) (pks : List Passkey) (x : String)
      → a.store.passkeys ≡ pks ++ pk ∷ []
      → (persist c env.fault a).1 ≡ err x
      → ((save_credential c env a).1 ≡ err not_saved)
        × ((save_credential c env a).0.store.passkeys ≡ pks)
  unfolding save_credential roll_back
  save_credential-pops env a pk pks x h failed =
      let (d, frame, _) = persist-atomic c env.fault a in
      (rw failed, rw (failed, frame, h) (drop_last-push pks pk))

  -- Two requests enrol a credential each, one after the other, and then the save of the first fails:
  -- it answers that its credential could not be saved, but that credential stays enrolled in memory,
  -- and the other request's is the one that is gone.
  pub save_credential_race :
      (now now' : ℕ) (jar jar' : Jar) (mode mode' : RegMode) (pk pk' : Passkey) (env : Env)
      (a b d : AuthState c) (x : String)
      → enrol c now jar mode pk a ≡ (b, ok tt)
      → enrol c now' jar' mode' pk' b ≡ (d, ok tt)
      → (persist c env.fault d).1 ≡ err x
      → ((save_credential c env d).1 ≡ err not_saved)
        × ((save_credential c env d).0.store.passkeys ≡ a.store.passkeys ++ pk ∷ [])
  save_credential_race now now' jar jar' mode mode' pk pk' env a b d x first second failed =
      save_credential-pops env d pk' (a.store.passkeys ++ pk ∷ []) x
        (enrol-pushes now' jar' mode' pk' b d second
          ∙ ap (λ l. l ++ pk' ∷ []) (enrol-pushes now jar mode pk a b first))
        failed
