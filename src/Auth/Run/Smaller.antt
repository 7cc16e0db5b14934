-- ===== src/Auth/Run/Smaller.antt =====
-- auth.rs: steps that only take entries out of the maps, against the invariant.
use vm_vitals.Base.{
  ℕ, ◌≤◌, ◌≡◌, refl, inl, inr, is_empty-cases, Bool, false, [], some, arith, Text, Map, get, retain,
  Distinct, length, is_empty, retain-Distinct, get-retain, length-retain-le,
}
use vm_vitals.Auth.Crates.{Crates}
use vm_vitals.Auth.State.{AuthState}
use vm_vitals.Auth.Session.Valid.{
  Shrinks, Shrinks-Distinct, Shrinks-length, Shrinks-get, Shrinks-nil,
}
use vm_vitals.Auth.Register.Steps.{Kept}
use vm_vitals.Auth.Run.Invariant.{Inv}

pub record Smaller {V : Type 0} (m m' : Map V) : Type 0 where
  pub from : (k : Text) (v : V) → get k m' ≡ some v → get k m ≡ some v
  pub distinct : Distinct m'
  pub shorter : length m' ≤ length m
  pub empty : m ≡ [] → m' ≡ []

module _ {V : Type 0} (m : Map V) (d : Distinct m) where
  pub Smaller-refl : Smaller m m
  Smaller-refl = record { from = λ k v h. h; distinct = d; shorter = omega arith; empty = λ e. e }

  pub Smaller-Shrinks : {m' : Map V} → Shrinks m m' → Smaller m m'
  Smaller-Shrinks s = record {
    from = λ k v. Shrinks-get k v s;
    distinct = Shrinks-Distinct s d;
    shorter = Shrinks-length s;
    empty = Shrinks-nil s;
  }

  pub Smaller-retain : (p : V → Bool) → Smaller m (retain p m)
  unfolding retain
  Smaller-retain p = record {
    from = λ k v h. ground (arith, get-retain p k m d);
    distinct = retain-Distinct p m d;
    shorter = length-retain-le p m;
    empty = λ e. rw e refl;
  }

module _ (c : Crates) {a : AuthState c} (inv : Inv c a) where
  pub Inv-Smaller :
      (b : AuthState c)
      → b.store ≡ a.store
      → b.bootstrap ≡ a.bootstrap
      → b.disk.json ≡ a.disk.json
      → Smaller a.reg b.reg
      → Smaller a.auth b.auth
      → Smaller a.sessions b.sessions
      → Inv c b
  Inv-Smaller b st co js re au se = record {
    unclaimed = λ e. let (s, t) = inv.unclaimed (rw (← st) e) in (se.empty s, au.empty t);
    code_burnt = λ e. rw co (inv.code_burnt (rw (← st) e));
    no_banked = λ e k p g. inv.no_banked (rw (← st) e) k p (re.from k p g);
    reg_distinct = re.distinct;
    auth_distinct = au.distinct;
    sessions_distinct = se.distinct;
    reg_bound = omega (arith, re.shorter, inv.reg_bound);
    auth_bound = omega (arith, au.shorter, inv.auth_bound);
    sessions_bound = omega (arith, se.shorter, inv.sessions_bound);
    ids_distinct = rw st inv.ids_distinct;
    durable = let (s, l, i) = inv.durable in (s, rw js l, rw st i);
  }

  pub Inv-Kept : {b : AuthState c} → Kept c a b → Inv c b
  Inv-Kept {b} k =
      Inv-Smaller b k.store k.bootstrap k.json (Smaller-Shrinks a.reg inv.reg_distinct k.reg)
        (rw k.auth (Smaller-refl a.auth inv.auth_distinct))
        (Smaller-Shrinks a.sessions inv.sessions_distinct k.sessions)

  -- With a credential enrolled somebody may be signed in; without one nobody is.
  pub claimed_of_session :
      (tok : Text) (exp : ℕ) → get tok a.sessions ≡ some exp → is_empty a.store.passkeys ≡ false
  unfolding get
  claimed_of_session tok exp g = elim (is_empty-cases a.store.passkeys) [
    | inl e ↦ let s = (inv.unclaimed e).0 in absurd (ground arith)
    | inr h ↦ h
  ]
