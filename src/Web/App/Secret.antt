-- ===== src/Web/App/Secret.antt =====
-- web.rs, `router`: what a request that is not let through can learn.
use mathlib.Core.Option
use vm_vitals.Base.{
  ℕ, ◌≡◌, refl, ap, sym, ◌∙◌, ◌⊎◌, inl, inr, Bool, true, false, Option, some, arith, All,
  Bool-cases, text_eq,
}
use vm_vitals.Base.Http.{Status}
use vm_vitals.Auth.Crates.{Crates}
use vm_vitals.Auth.State.{AuthState}
use vm_vitals.Collect.Snapshot.{published}
use vm_vitals.Web.Gate.Access.{Permitted}
use vm_vitals.Web.Router.{
  Endpoint, to_index, to_healthz, to_logout, to_auth_status, to_register_start, to_register_finish,
  to_login_start, to_login_finish, to_status, to_series, Route, Response, router, routes, is_gated,
}
use vm_vitals.Web.Router.Gated.{get_elem?, All-get_elem?, router-closed, router-open, hardened}
use vm_vitals.Web.App.{AppState, Incoming, Reply, handle, handlers, serve}

-- The handler reads neither the snapshot nor the history, but for what `healthz` publishes.
abbrev is_open : Endpoint → Bool
is_open to_index = true
is_open to_healthz = true
is_open to_logout = true
is_open to_auth_status = true
is_open to_register_start = true
is_open to_register_finish = true
is_open to_login_start = true
is_open to_login_finish = true
is_open to_status = false
is_open to_series = false

routes_sorted : All (λ r. (is_gated r ≡ true) ⊎ (is_open r.endpoint ≡ true)) routes
unfolding is_gated text_eq
routes_sorted = (
  inr refl,
  (
    inr refl,
    (
      inr refl,
      (inr refl, (inr refl, (inr refl, (inr refl, (inr refl, (inl refl, (inl refl, tt))))))),
    ),
  ),
)

module _ {c : Crates} {Host F : Type 0} where
  -- The states agree on what is told to anybody.
  pub record Alike (a b : AppState c Host F) : Type 0 where
    pub token : a.token ≡ b.token
    pub auth : a.auth ≡ b.auth
    pub health : Option.map published a.snapshot ≡ Option.map published b.snapshot

  handle-Alike :
      (req : Incoming c Host F) (a b : AppState c Host F) (e : Endpoint)
      (auth : Option (AuthState c))
      → is_open e ≡ true
      → Alike a b
      → handle req a e auth ≡ handle req b e auth
  unfolding handle
  handle-Alike req a b to_index auth h k = refl
  handle-Alike req a b to_healthz auth h k = rw k.health refl
  handle-Alike req a b to_logout auth h k = refl
  handle-Alike req a b to_auth_status auth h k = refl
  handle-Alike req a b to_register_start auth h k = refl
  handle-Alike req a b to_register_finish auth h k = refl
  handle-Alike req a b to_login_start auth h k = refl
  handle-Alike req a b to_login_finish auth h k = refl
  handle-Alike req a b to_status auth h k = absurd (ground arith)
  handle-Alike req a b to_series auth h k = absurd (ground arith)

  module _ (render : Reply c Host F → Response) (of_status : Status → Response) (missing : Response)
      (now : ℕ) (req : Incoming c Host F) where
    router-Alike :
        (a b : AppState c Host F) (r : Route)
        → Alike a b
        → ¬ Permitted c now req.gate a.token a.auth
        → (is_gated r ≡ true) ⊎ (is_open r.endpoint ≡ true)
        → router c of_status missing (handlers render req a) now req.gate a.token (some r) a.auth
          ≡ router c of_status missing (handlers render req b) now req.gate a.token (some r) a.auth
    unfolding handlers handle
    router-Alike a b r k out how = elim (Bool-cases (is_gated r)) [
      | inl g ↦
          (router-closed c of_status missing (handlers render req a) (handlers render req b) now
            req.gate a.token r a.auth g out).1
      | inr g ↦
          router-open c of_status missing (handlers render req a) now req.gate a.token r a.auth g
          ∙ ap (λ s. hardened c of_status missing (s.0, render s.1))
              (handle-Alike req a b r.endpoint a.auth
                (elim how [ inl g' ↦ absurd (ground (arith, g, g')) | inr o ↦ o ]) k)
          ∙ sym (
              router-open c of_status missing (handlers render req b) now req.gate a.token r a.auth
                g)
    ]

    -- Two servers in states that agree on the token, on the sign-in, and on what the health check
    -- reads of the snapshot, give a request that is not let through the same answer on every route,
    -- whatever their snapshots and histories hold, and go on with the same sign-in.
    pub serve-Alike :
        (a b : AppState c Host F) (i : ℕ) (r : Route)
        → Alike a b
        → get_elem? routes i ≡ some r
        → ¬ Permitted c now req.gate a.token a.auth
        → ((serve render of_status missing now (some r) req a).1
            ≡ (serve render of_status missing now (some r) req b).1)
          × ((serve render of_status missing now (some r) req a).0.auth
              ≡ (serve render of_status missing now (some r) req b).0.auth)
    unfolding serve
    serve-Alike a b i r k there out =
        let sorted =
          All-get_elem? (λ s. (is_gated s ≡ true) ⊎ (is_open s.endpoint ≡ true)) routes i r
            routes_sorted there in
        let same = router-Alike a b r k out sorted in
        (
          rw (← k.token, ← k.auth) (ap (λ s. s.1) same),
          rw (← k.token, ← k.auth) (ap (λ s. s.0) same),
        )
