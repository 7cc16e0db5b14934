-- ===== src/Auth/Concurrent/Lost.antt =====
-- auth.rs, `persist`: two saves at once. The text to be written is made under the lock of the store,
-- and written after the lock is released.
use vm_vitals.Base.{
  ◌≡◌, refl, ap, ◌∙◌, true, List, [], ◌∷◌, ◌++◌, none, some, String, Text, ok, err, drop_last,
  drop_last-push,
}
use vm_vitals.Base.Http.{Status}
use vm_vitals.Auth.Crates.{Crates, JsonRoundTrip}
use vm_vitals.Auth.State.{AuthState, Env, Disk, RegMode, bootstrap, add_device, no_fault}
use vm_vitals.Auth.Session.Issue.{new_session-frame}
use vm_vitals.Auth.Persist.{replace_file, load_store}
use vm_vitals.Auth.Persist.Atomic.{load_store-saved}
use vm_vitals.Auth.Register.{enrol, later_clock, roll_back, not_saved}
use vm_vitals.Auth.Register.Race.{enrol-pushes}
use vm_vitals.Auth.Concurrent.{Place, verified, pushed, saved, answered, turns}

module _ (c : Crates) where
  open c use {Passkey, Jar, to_string_pretty}

  -- A second request that has saved runs to its end: it is told of success, and writes nothing more.
  turns-saved :
      (p : Place c) (env : Env) (jar : Jar) (mode : RegMode) (a : AuthState c)
      → (b : AuthState c) × (j : Jar) × (turns c
            (1 ∷ 1 ∷ 1 ∷ [])
            (record { state = a; requests = p ∷ saved env jar mode ∷ [] })
          ≡ record { state = b; requests = p ∷ answered (ok (j, Status.ok)) ∷ [] })
        × (b.store ≡ a.store)
        × (b.disk ≡ a.disk)
  unfolding turns
  turns-saved p env jar bootstrap a =
      let (m, frame) =
        new_session-frame c (later_clock env) (record a { reg = []; bootstrap = none }) in
      (_, _, refl, rw frame refl, rw frame refl)
  turns-saved p env jar add_device a =
      let (m, frame) = new_session-frame c (later_clock env) a in
      (_, _, refl, rw frame refl, rw frame refl)

  -- The sections of two requests, up to both saves: the first has its text before the second pushes,
  -- and writes it after the second has written.
  turns-overwrites :
      (env env' : Env) (jar jar' : Jar) (mode mode' : RegMode) (pk : Passkey) (a b : AuthState c)
      (json json' : Text)
      → to_string_pretty (a.store.user_id, a.store.passkeys) ≡ some json
      → enrol c (env'.clock 1) jar' mode' pk a ≡ (b, ok tt)
      → to_string_pretty (b.store.user_id, b.store.passkeys) ≡ some json'
      → env.fault ≡ no_fault
      → env'.fault ≡ no_fault
      → turns c
          (0 ∷ 1 ∷ 1 ∷ 1 ∷ 0 ∷ [])
          (record { state = a; requests = pushed env jar mode ∷ verified env' jar' mode' pk ∷ [] })
        ≡ record {
          state = record b { disk = record { json = some json; tmp = none } };
          requests = saved env jar mode ∷ saved env' jar' mode' ∷ [];
        }
  unfolding turns replace_file
  turns-overwrites env env' jar jar' mode mode' pk a b json json' e h e' f f' =
      rw (e, h, e', f, f') refl

  -- Two requests enrol a device each. The first makes its text before the second pushes its
  -- credential, and writes it after the second has written its own. No write fails, and the second is
  -- told of success: its credential is enrolled in memory, but what a restart loads is the
  -- credentials without it.
  pub turns-lost :
      JsonRoundTrip c
      → (env env' : Env) (jar jar' : Jar) (mode mode' : RegMode) (pk : Passkey) (a b : AuthState c)
        (json json' : Text)
      → to_string_pretty (a.store.user_id, a.store.passkeys) ≡ some json
      → enrol c (env'.clock 1) jar' mode' pk a ≡ (b, ok tt)
      → to_string_pretty (b.store.user_id, b.store.passkeys) ≡ some json'
      → env.fault ≡ no_fault
      → env'.fault ≡ no_fault
      → (d : AuthState c) × (j : Jar) × (turns c (0 ∷ 1 ∷ 1 ∷ 1 ∷ 0 ∷ 1 ∷ 1 ∷ 1 ∷ []) (record {
        state = a;
        requests = pushed env jar mode ∷ verified env' jar' mode' pk ∷ [];
      })
          ≡ record { state = d; requests = saved env jar mode ∷ answered (ok (j, Status.ok)) ∷ [] })
        × (d.store.passkeys ≡ a.store.passkeys ++ pk ∷ [])
        × (load_store c true d.disk.json ≡ ok a.store)
  unfolding turns
  turns-lost round env env' jar jar' mode mode' pk a b json json' e h e' f f' =
      let written : AuthState c = record b { disk = record { json = some json; tmp = none } } in
      let (d, j, ends, st, dk) = turns-saved (saved env jar mode) env' jar' mode' written in
      (
        d,
        j,
        ap (turns c (1 ∷ 1 ∷ 1 ∷ []))
              (turns-overwrites env env' jar jar' mode mode' pk a b json json' e h e' f f')
            ∙ ends,
        ap (λ s. s.passkeys) st ∙ enrol-pushes c (env'.clock 1) jar' mode' pk a b h,
        rw dk (load_store-saved c round a.store json e),
      )

  -- The state once the last credential is popped and the rest is written.
  abbrev rolled_back : AuthState c → List Passkey → Text → AuthState c
  rolled_back a pks json = record a {
    store = record { user_id = a.store.user_id; passkeys = pks };
    disk = record { json = some json; tmp = none };
  }

  turns-rolls_back :
      (env env' : Env) (jar jar' : Jar) (mode mode' : RegMode) (pks : List Passkey) (pk' : Passkey)
      (a : AuthState c) (d : Disk) (x : String) (json json' : Text)
      → a.store.passkeys ≡ pks ++ pk' ∷ []
      → to_string_pretty (a.store.user_id, a.store.passkeys) ≡ some json
      → replace_file env.fault json a.disk ≡ (d, err x)
      → to_string_pretty (a.store.user_id, pks) ≡ some json'
      → env'.fault ≡ no_fault
      → turns c
          (0 ∷ 0 ∷ 0 ∷ 1 ∷ 1 ∷ [])
          (record { state = a; requests = pushed env jar mode ∷ pushed env' jar' mode' ∷ [] })
        ≡ record {
          state = rolled_back a pks json';
          requests = answered (err not_saved) ∷ saved env' jar' mode' ∷ [];
        }
  unfolding turns replace_file roll_back
  turns-rolls_back env env' jar jar' mode mode' pks pk' a d x json json' h e f e' f' =
      let popped : drop_last a.store.passkeys ≡ pks = ap drop_last h ∙ drop_last-push pks pk' in
      rw (e, f, popped, e', f') refl

  -- Two requests have pushed a credential each when the save of the first fails. The first is told
  -- that its credential could not be saved, and the second is told of success; but the credential of
  -- the first stays enrolled and is what a restart loads, and that of the second is gone.
  pub turns-popped :
      JsonRoundTrip c
      → (env env' : Env) (jar jar' : Jar) (mode mode' : RegMode) (pks : List Passkey)
        (pk pk' : Passkey) (a : AuthState c) (d : Disk) (x : String) (json json' : Text)
      → a.store.passkeys ≡ (pks ++ pk ∷ []) ++ pk' ∷ []
      → to_string_pretty (a.store.user_id, a.store.passkeys) ≡ some json
      → replace_file env.fault json a.disk ≡ (d, err x)
      → to_string_pretty (a.store.user_id, pks ++ pk ∷ []) ≡ some json'
      → env'.fault ≡ no_fault
      → (b : AuthState c) × (j : Jar) × (turns c
            (0 ∷ 0 ∷ 0 ∷ 1 ∷ 1 ∷ 1 ∷ 1 ∷ 1 ∷ [])
            (record { state = a; requests = pushed env jar mode ∷ pushed env' jar' mode' ∷ [] })
          ≡ record {
            state = b;
            requests = answered (err not_saved) ∷ answered (ok (j, Status.ok)) ∷ [];
          })
        × (b.store.passkeys ≡ pks ++ pk ∷ [])
        × (load_store c true b.disk.json
            ≡ ok (record { user_id = a.store.user_id; passkeys = pks ++ pk ∷ [] }))
  unfolding turns
  turns-popped round env env' jar jar' mode mode' pks pk pk' a d x json json' h e f e' f' =
      let kept = pks ++ pk ∷ [] in
      let (b, j, ends, st, dk) =
        turns-saved (answered (err not_saved)) env' jar' mode' (rolled_back a kept json') in
      (
        b,
        j,
        ap (turns c (1 ∷ 1 ∷ 1 ∷ []))
              (turns-rolls_back env env' jar jar' mode mode' kept pk' a d x json json' h e f e' f')
            ∙ ends,
        ap (λ s. s.passkeys) st,
        rw dk (
            load_store-saved c round (record { user_id = a.store.user_id; passkeys = kept }) json'
              e'),
      )
