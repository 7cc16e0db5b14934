-- ===== src/Auth/Concurrent/Counts/Closed.antt =====
-- auth.rs, `register_finish`: what a success means for the requests in flight and those to come.
use vm_vitals.Base.{
  ℕ, ◌+◌, ◌≤◌, ◌≡◌, refl, ap, ◌⊎◌, inl, inr, [], arith, length, is_empty-cases, Option, Text, err,
}
use vm_vitals.Base.Http.{Reject}
use vm_vitals.Auth.Crates.{Crates, UpdateKeepsId}
use vm_vitals.Auth.State.{AuthState, Env, RegMode, bootstrap, add_device}
use vm_vitals.Auth.Register.{register_start, enrol, admin_exists}
use vm_vitals.Auth.Register.Begin.{MayStart, register_start_cases}
use vm_vitals.Auth.Session.Valid.{SignedIn}
use vm_vitals.Auth.Concurrent.{verified, answered, advance, System, Reach}
use vm_vitals.Auth.Concurrent.Counts.{
  enrolled, successes, Reach-Counted, Reach-successes, successes-total_held,
}

module _ (c : Crates) where
  open c use {Passkey, Jar}

  -- From a server with none in flight: every finish of a registration that was told of success is matched
  -- by a credential beyond those of the start, in every later state.
  pub Reach-enrolled :
      UpdateKeepsId c
      → (a : AuthState c) (s t : System c) → Reach c (record { state = a; requests = [] }) s
      → Reach c s t
      → length a.store.passkeys + successes c s.requests ≤ length t.state.store.passkeys
  Reach-enrolled upd a s t r r' =
      let counted = Reach-Counted c upd (enrolled c a) s t r' (
        Reach-Counted c upd (enrolled c a) (record { state = a; requests = [] }) s r
          (omega arith)) in
      omega (arith, counted, Reach-successes c s t r', successes-total_held c t.requests)

  MayStart-claimed :
      (now : ℕ) (jar : Jar) (body : Option (Option Text)) (mode : RegMode) (a : AuthState c)
      → MayStart c now jar body mode a
      → 1 ≤ enrolled c a
      → SignedIn c now jar a.sessions
  MayStart-claimed now jar body bootstrap a may le = absurd (omega (arith, le, ap length may.0))
  MayStart-claimed now jar body add_device a may le = may.1

  -- From a server with none in flight: once a finish of a registration was told of success, in every later
  -- state a request in flight with a ceremony of the first enrolment is refused at its next section,
  -- and a request that is not signed in starts no ceremony, whatever saves fail and roll back.
  pub success-closes_bootstrap :
      UpdateKeepsId c
      → (a : AuthState c) (s t : System c) → Reach c (record { state = a; requests = [] }) s
      → 1 ≤ successes c s.requests
      → Reach c s t
      → ((env : Env) (jar : Jar) (pk : Passkey)
          → advance c (verified env jar bootstrap pk) t.state
            ≡ (t.state, answered (err admin_exists)))
        × ((env : Env) (jar : Jar) (body : Option (Option Text))
            → (SignedIn c (env.clock 0) jar t.state.sessions
                ⊎ ((b : AuthState c) × (x : Reject) × (register_start c env jar body t.state
                      ≡ (b, err x)))))
  unfolding advance enrol
  success-closes_bootstrap upd a s t r told r' =
      let le = Reach-enrolled upd a s t r r' in
      elim (is_empty-cases t.state.store.passkeys) [
        | inl e ↦ absurd (omega (arith, le, told, ap length e))
        | inr e ↦ (
          λ env jar pk. rw e refl,
          λ env jar body. elim (register_start_cases c env jar body t.state) [
            | inl (b, ccr, h, st) ↦
                inl (
                  MayStart-claimed (env.clock 0) jar body st.mode t.state st.may_start
                    (omega arith))
            | inr (m, x, h, k) ↦ inr (record t.state { sessions = m }, x, h)
          ],
        )
      ]
