-- ===== src/Auth/Run/Restart.antt =====
-- auth.rs, `AuthState::new` on the files that an earlier run left.
use vm_vitals.Base.{
  ◌≡◌, refl, inl, inr, Bool, true, false, String, Option, none, some, arith, Text, get, is_empty,
  Result, ok, err, Result-cases,
}
use vm_vitals.Auth.Crates.{Crates}
use vm_vitals.Auth.State.{AuthState, Store, Env, Disk}
use vm_vitals.Auth.Persist.{load_store, fresh_state, new}
use vm_vitals.Auth.Run.Invariant.{Inv, ids}

module _ (c : Crates) where
  open c use {Passkey, Jar, RegisterCredential, cred_id, from_str}

  -- A file that loads is also loaded when nothing is wrong.
  load_store-readable :
      (readable : Bool) (j : Option Text) (s : Store c)
      → load_store c readable j ≡ ok s
      → load_store c true j ≡ ok s
  unfolding load_store
  load_store-readable true j s h = h
  load_store-readable false none s h = h
  load_store-readable false (some raw) s h = cc

  new-inv :
      (env : Env) (setup : Result (Unit {0}) String) (readable : Bool) (d : Disk) (b : AuthState c)
      → new c env setup readable d ≡ ok b
      → (s : Store c) × (load_store c true d.json ≡ ok s) × (b ≡ fresh_state c env d s)
  unfolding new
  new-inv env (err e) readable d b h = cc
  new-inv env (ok u) readable d b h = elim (Result-cases (load_store c readable d.json)) [
    | inl (s, e) ↦ (s, load_store-readable readable d.json s e, ground arith)
    | inr (x, e) ↦ absurd (ground arith)
  ]

  fresh_code :
      (env : Env) (d : Disk) (s : Store c)
      → is_empty s.passkeys ≡ false
      → (fresh_state c env d s).bootstrap ≡ none
  unfolding fresh_state
  fresh_code env d s h = rw h

  pub Inv-restart :
      (a b : AuthState c) (env : Env) (setup : Result (Unit {0}) String) (readable : Bool)
      → Inv c a
      → new c env setup readable a.disk ≡ ok b
      → Inv c b × (ids c b.store.passkeys ≡ ids c a.store.passkeys)
  unfolding fresh_state get
  Inv-restart a b env setup readable inv h =
      let (s, l, e) = new-inv env setup readable a.disk b h in
      let (s', l', i) = inv.durable in
      let same_store : s ≡ s' = ground arith in
      let same_ids : ids c s.passkeys ≡ ids c a.store.passkeys = rw same_store i in
      (
        rw e (record {
          unclaimed = λ _. (refl, refl);
          code_burnt = fresh_code env a.disk s;
          no_banked = λ h k p g. absurd (ground arith);
          reg_distinct = tt;
          auth_distinct = tt;
          sessions_distinct = tt;
          reg_bound = omega arith;
          auth_bound = omega arith;
          sessions_bound = omega arith;
          ids_distinct = rw same_ids inv.ids_distinct;
          durable = (s, l, refl);
        }),
        rw e same_ids,
      )

  abbrev pub IsRefused : Result (AuthState c) String → Type 0
  IsRefused r = (e : String) × (r ≡ err e)
