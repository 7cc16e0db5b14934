-- ===== src/Auth/Run/Preserve.antt =====
-- auth.rs: registrations and new sessions against the invariant.
pub mod SignIn
use vm_vitals.Base.{
  ℕ, ◌+◌, ◌≡◌, refl, ap, sym, ◌∙◌, ◌≢◌, inl, inr, false, List, [], ◌∷◌, ◌++◌, map, Option, none,
  some, arith, Bool-cases, Text, text_eq, text_eq_iff, Map, get, remove, Distinct, is_empty,
  is_empty-cases,
}
use vm_vitals.Base.Hex.{hex32}
use vm_vitals.Auth.Crates.{Crates, CredEqual, UpdateKeepsId, JsonRoundTrip}
use vm_vitals.Auth.State.{
  AuthState, Env, RegMode, bootstrap, add_device, PendingReg, PendingAuth, ceremony_ttl,
}
use vm_vitals.Auth.Ceremony.{insert_capped}
use vm_vitals.Auth.Ceremony.Bounds.{
  insert_capped_bounds, insert_capped-from, insert_capped-Distinct,
}
use vm_vitals.Auth.Session.{new_session}
use vm_vitals.Auth.Session.Valid.{without, Shrinks-Distinct, Shrinks-length, Shrinks-nil}
use vm_vitals.Auth.Session.Issue.{new_session_bounds, new_session-Distinct, new_session-frame}
use vm_vitals.Auth.Persist.Atomic.{load_store-saved}
use vm_vitals.Auth.Register.Begin.{MayStart, Started}
use vm_vitals.Auth.Register.Steps.{Authorised, Enrolled}
use vm_vitals.Auth.Login.{login_start}
use vm_vitals.Auth.Login.Outcome.{SignsIn, login_start_cases}
use vm_vitals.Auth.Run.Invariant.{Inv, ids, AllDistinct-push, any-ids, ids-update}
use vm_vitals.Auth.Run.Smaller.{Smaller, Smaller-Shrinks, claimed_of_session}

pub is_empty-push : {A : Type 0} (xs : List A) (x : A) → is_empty (xs ++ x ∷ []) ≡ false
is_empty-push [] x = refl
is_empty-push (y ∷ xs) x = refl

pub not_empty : {A : Type 0} (xs : List A) → is_empty xs ≡ false → ¬ (xs ≡ [])
not_empty xs h e = ground arith

pub map-push :
    {A B : Type 0} (f : A → B) (xs : List A) (x : A) → map f (xs ++ x ∷ []) ≡ map f xs ++ f x ∷ []
map-push f [] x = refl
map-push f (y ∷ xs) x = ap (◌∷◌ (f y)) (map-push f xs x)

module _ (c : Crates) where
  open c use {Passkey, Jar, RegisterCredential, LoginCredential, to_string_pretty, cred_id}

  -- A session is issued only when somebody is enrolled.
  pub Inv-new_session :
      (env : Env) (a : AuthState c)
      → Inv c a
      → is_empty a.store.passkeys ≡ false
      → Inv c (new_session c env a).0
  Inv-new_session env a inv claimed =
      let (s, frame) = new_session-frame c env a in
      let (bound, _, _) = new_session_bounds c env a inv.sessions_bound in
      let distinct = new_session-Distinct c env a inv.sessions_distinct in
      rw frame (record {
        unclaimed = λ e. absurd (not_empty a.store.passkeys claimed e);
        code_burnt = inv.code_burnt;
        no_banked = inv.no_banked;
        reg_distinct = inv.reg_distinct;
        auth_distinct = inv.auth_distinct;
        sessions_distinct = rw frame at distinct;
        reg_bound = inv.reg_bound;
        auth_bound = inv.auth_bound;
        sessions_bound = rw frame at bound;
        ids_distinct = inv.ids_distinct;
        durable = inv.durable;
      })

  -- A claimed account starts registrations for a signed-in request only.
  MayStart-claimed :
      (now : ℕ) (jar : Jar) (body : Option (Option Text)) (mode : RegMode) (a : AuthState c)
      → MayStart c now jar body mode a
      → is_empty a.store.passkeys ≡ false
      → mode ≡ add_device
  MayStart-claimed now jar body bootstrap a may h = absurd (not_empty a.store.passkeys h may.0)
  MayStart-claimed now jar body add_device a may h = refl

  banked-insert :
      (now : ℕ) (key : Text) (p : PendingReg c) (m : Map (PendingReg c))
      → Distinct m
      → p.mode ≡ add_device
      → ((k : Text) (q : PendingReg c) → get k m ≡ some q → q.mode ≡ add_device)
      → (k : Text) (q : PendingReg c) → get k (insert_capped (λ x. x.expires) now key p m) ≡ some q
      → q.mode ≡ add_device
  banked-insert now key p m d mode old k q g = elim (Bool-cases (text_eq key k)) [
    | inl t ↦
        let e = (text_eq_iff key k).0 t in
        let held = (insert_capped_bounds (λ x. x.expires) now key p m).1 in
        let found = rw (← e) at g in ground arith
    | inr f ↦
        let ne : key ≢ k = λ e. ground (arith, (text_eq_iff key k).1 e) in
        old k q (insert_capped-from (λ x. x.expires) now key k p q m d ne g).0
  ]

  pub Inv-Started :
      (env : Env) (jar : Jar) (body : Option (Option Text)) (a b : AuthState c)
      → Inv c a
      → Started c env jar body a b
      → Inv c b
  Inv-Started env jar body a b inv s =
      let key = hex32 env.random in
      let p : PendingReg c = record {
        state = s.state;
        mode = s.mode;
        expires = env.clock 1 + ceremony_ttl;
      } in
      let bounds =
        insert_capped_bounds {V = PendingReg c} (λ p. p.expires) (env.clock 2) key p a.reg in
      record {
        unclaimed = λ e.
            let (x, y) = inv.unclaimed (rw (← s.passkeys) e) in
            (Shrinks-nil s.sessions x, rw s.auth y);
        code_burnt = λ e. rw s.code (inv.code_burnt (rw (← s.passkeys) e));
        no_banked = λ h k q g.
            let claimed = rw s.passkeys at h in
            banked-insert (env.clock 2) key p a.reg inv.reg_distinct
              (MayStart-claimed (env.clock 0) jar body s.mode a s.may_start claimed)
              (inv.no_banked claimed) k q (rw s.reg at g);
        reg_distinct =
            rw s.reg
              (insert_capped-Distinct (λ p. p.expires) (env.clock 2) key p a.reg inv.reg_distinct);
        auth_distinct = rw s.auth inv.auth_distinct;
        sessions_distinct = Shrinks-Distinct s.sessions inv.sessions_distinct;
        reg_bound = rw s.reg bounds.0;
        auth_bound = rw s.auth inv.auth_bound;
        sessions_bound = omega (arith, Shrinks-length s.sessions, inv.sessions_bound);
        ids_distinct = rw s.passkeys inv.ids_distinct;
        durable = let (st, l, i) = inv.durable in (st, rw s.disk l, rw s.passkeys i);
      }

  -- What a redeemed registration leaves of the code and of the other registrations.
  closed :
      (now : ℕ) (jar : Jar) (mode : RegMode) (rid : Text) (a b : AuthState c)
      → Inv c a
      → Authorised c now jar mode a.store.passkeys a.sessions
      → b.reg ≡ elim mode [ bootstrap ↦ [] | add_device ↦ remove rid a.reg ]
      → b.bootstrap ≡ elim mode [ bootstrap ↦ none | add_device ↦ a.bootstrap ]
      → (b.bootstrap ≡ none)
        × Smaller a.reg b.reg
        × ((k : Text) (p : PendingReg c) → get k b.reg ≡ some p → p.mode ≡ add_device)
  unfolding get
  closed now jar bootstrap rid a b inv auth re co = (
    co,
    rw re (record {
      from = λ k p g. absurd (ground arith);
      distinct = tt;
      shorter = omega arith;
      empty = λ e. refl;
    }),
    λ k p g. let g' = rw re at g in absurd (ground arith),
  )
  closed now jar add_device rid a b inv auth re co =
      let claimed = claimed_of_session c inv auth.token auth.expires auth.held in
      let smaller = Smaller-Shrinks a.reg inv.reg_distinct {m' = b.reg} (without rid re) in
      (
        co ∙ inv.code_burnt claimed,
        smaller,
        λ k p g. inv.no_banked claimed k p (smaller.from k p g),
      )

  pub Inv-Enrolled :
      CredEqual c
      → JsonRoundTrip c
      → (env : Env) (jar : Jar) (cred : RegisterCredential) (a b : AuthState c) → Inv c a
      → Enrolled c env jar cred a b
      → b.sessions ≡ a.sessions
      → Inv c b × (is_empty b.store.passkeys ≡ false)
  Inv-Enrolled eq round env jar cred a b inv s se =
      let claimed : is_empty b.store.passkeys ≡ false =
        rw s.passkeys (is_empty-push a.store.passkeys s.passkey) in
      let (code, smaller, unbanked) =
        closed (env.clock 1) jar s.pending.mode s.rid a b inv s.authorised s.reg s.code in
      (
        record {
          unclaimed = λ e. absurd (not_empty b.store.passkeys claimed e);
          code_burnt = λ h. code;
          no_banked = λ h. unbanked;
          reg_distinct = smaller.distinct;
          auth_distinct = rw s.auth inv.auth_distinct;
          sessions_distinct = rw se inv.sessions_distinct;
          reg_bound = omega (arith, smaller.shorter, inv.reg_bound);
          auth_bound = rw s.auth inv.auth_bound;
          sessions_bound = rw se inv.sessions_bound;
          ids_distinct =
              rw (s.passkeys, map-push cred_id a.store.passkeys s.passkey)
                (AllDistinct-push (ids c a.store.passkeys) (cred_id s.passkey) inv.ids_distinct
                  (any-ids c eq a.store.passkeys s.passkey s.unknown));
          durable = (b.store, rw s.saved (load_store-saved c round b.store s.json s.written), refl);
        },
        claimed,
      )
