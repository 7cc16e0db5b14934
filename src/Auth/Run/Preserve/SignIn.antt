-- ===== src/Auth/Run/Preserve/SignIn.antt =====
-- auth.rs: `login_start` and `login_finish` against the invariant.
use vm_vitals.Base.{
  ◌+◌, ◌≡◌, refl, sym, ◌∙◌, inl, inr, false, List, [], ◌∷◌, map, arith, get, is_empty,
  is_empty-cases,
}
use vm_vitals.Base.Hex.{hex32}
use vm_vitals.Auth.Crates.{Crates, UpdateKeepsId, JsonRoundTrip}
use vm_vitals.Auth.State.{AuthState, Env, PendingAuth, ceremony_ttl}
use vm_vitals.Auth.Ceremony.Bounds.{insert_capped_bounds, insert_capped-Distinct}
use vm_vitals.Auth.Session.Valid.{without}
use vm_vitals.Auth.Persist.Atomic.{load_store-saved}
use vm_vitals.Auth.Login.{login_start}
use vm_vitals.Auth.Login.Outcome.{SignsIn, login_start_cases}
use vm_vitals.Auth.Run.Invariant.{Inv, ids, ids-update}
use vm_vitals.Auth.Run.Smaller.{Smaller-Shrinks}
use vm_vitals.Auth.Run.Preserve.{not_empty}

is_empty-map : {A B : Type 0} (f : A → B) (xs : List A) → is_empty (map f xs) ≡ is_empty xs
is_empty-map f [] = refl
is_empty-map f (x ∷ xs) = refl

module _ (c : Crates) where
  open c use {LoginCredential, Jar}

  pub Inv-SignsIn :
      UpdateKeepsId c
      → JsonRoundTrip c
      → (env : Env) (jar : Jar) (cred : LoginCredential) (a b : AuthState c) → Inv c a
      → SignsIn c env jar cred a b
      → Inv c b × (is_empty b.store.passkeys ≡ false)
  unfolding get
  Inv-SignsIn upd round env jar cred a b inv s =
      let was : is_empty a.store.passkeys ≡ false = elim (is_empty-cases a.store.passkeys) [
        | inl e ↦ let n = (inv.unclaimed e).1 in absurd (ground (arith, s.started))
        | inr h ↦ h
      ] in
      let claimed : is_empty b.store.passkeys ≡ false = rw (s.passkeys, is_empty-map) was in
      let same_ids : ids c b.store.passkeys ≡ ids c a.store.passkeys =
        rw s.passkeys (ids-update c upd s.result a.store.passkeys) in
      let smaller = Smaller-Shrinks a.auth inv.auth_distinct {m' = b.auth} (without s.aid s.auth) in
      (
        record {
          unclaimed = λ e. absurd (not_empty b.store.passkeys claimed e);
          code_burnt = λ h. s.code ∙ inv.code_burnt was;
          no_banked = λ h k p g. inv.no_banked was k p (rw s.reg at g);
          reg_distinct = rw s.reg inv.reg_distinct;
          auth_distinct = smaller.distinct;
          sessions_distinct = rw s.sessions inv.sessions_distinct;
          reg_bound = rw s.reg inv.reg_bound;
          auth_bound = omega (arith, smaller.shorter, inv.auth_bound);
          sessions_bound = rw s.sessions inv.sessions_bound;
          ids_distinct = rw same_ids inv.ids_distinct;
          durable = elim s.saved [
            | inl (json, w, j) ↦ (b.store, rw j (load_store-saved c round b.store json w), refl)
            | inr (j, why) ↦ let (st, l, i) = inv.durable in (st, rw j l, i ∙ sym same_ids)
          ];
        },
        claimed,
      )

  pub Inv-login_start :
      (env : Env) (jar : Jar) (a : AuthState c) → Inv c a → Inv c (login_start c env jar a).0
  Inv-login_start env jar a inv = elim (login_start_cases c env jar a) [
    | inr (e, q) ↦ rw q inv
    | inl (rcr, state, claimed, _, q) ↦
        let p : PendingAuth c = record { state = state; expires = env.clock 0 + ceremony_ttl } in
        let key = hex32 env.random in
        rw q (record {
          unclaimed = λ e. absurd (not_empty a.store.passkeys claimed e);
          code_burnt = inv.code_burnt;
          no_banked = inv.no_banked;
          reg_distinct = inv.reg_distinct;
          auth_distinct =
              insert_capped-Distinct (λ x. x.expires) (env.clock 1) key p a.auth inv.auth_distinct;
          sessions_distinct = inv.sessions_distinct;
          reg_bound = inv.reg_bound;
          auth_bound = (insert_capped_bounds (λ x. x.expires) (env.clock 1) key p a.auth).0;
          sessions_bound = inv.sessions_bound;
          ids_distinct = inv.ids_distinct;
          durable = inv.durable;
        })
  ]
