-- ===== src/Auth/Session/Valid.antt =====
-- auth.rs, `session_valid` and `sweep`: which sessions count, and what a check changes.
use vm_vitals.Base.{
  ℕ, ◌≤◌, ◌<◌, ◌≡◌, refl, ◌↔◌, ◌⊎◌, inl, inr, true, false, [], some, arith, ltb, Bool-cases,
  Option-cases, Text, Map, get, remove, Distinct, keep_if, get-retain, get-remove, remove-Distinct,
  length, length-remove-le,
}
use vm_vitals.Auth.Crates.{Crates}
use vm_vitals.Auth.State.{AuthState}
use vm_vitals.Auth.Session.{session_cookie, session_valid, sweep}

-- A map from which one key may have gone.
pub data Shrinks {V : Type 0} (m m' : Map V) : Type 0 where
  same : m' ≡ m → Shrinks m m'
  without : (k : Text) → m' ≡ remove k m → Shrinks m m'

module _ {V : Type 0} where
  pub Shrinks-Distinct : {m m' : Map V} → Shrinks m m' → Distinct m → Distinct m'
  Shrinks-Distinct (same e) d = rw e d
  Shrinks-Distinct {m} (without k e) d = rw e (remove-Distinct k m d)

  pub Shrinks-length : {m m' : Map V} → Shrinks m m' → length m' ≤ length m
  Shrinks-length (same e) = rw e (omega arith)
  Shrinks-length {m} (without k e) = rw e (length-remove-le k m)

  pub Shrinks-get :
      {m m' : Map V} (k : Text) (v : V) → Shrinks m m' → get k m' ≡ some v → get k m ≡ some v
  Shrinks-get k v (same e) h = rw (← e) h
  Shrinks-get {m} k v (without j e) h = ground (arith, get-remove j k m)

  pub Shrinks-nil : {m m' : Map V} → Shrinks m m' → m ≡ [] → m' ≡ []
  unfolding remove
  Shrinks-nil (same e) h = rw (e, h)
  Shrinks-nil (without k e) h = rw (e, h)

module _ (c : Crates) where
  open c use {Jar, get_cookie}

  -- The request carries the token of a session that has not expired.
  pub record SignedIn (now : ℕ) (jar : Jar) (sessions : Map ℕ) : Type 0 where
    pub token : Text
    pub expires : ℕ
    pub carried : get_cookie jar session_cookie ≡ some token
    pub held : get token sessions ≡ some expires
    pub fresh : now < expires

  session_valid_sound :
      (now : ℕ) (jar : Jar) (a : AuthState c)
      → (session_valid c now jar a).1 ≡ true
      → SignedIn now jar a.sessions
  unfolding session_valid
  session_valid_sound now jar a h = elim (Option-cases (get_cookie jar session_cookie)) [
    | inl e ↦ absurd (ground arith)
    | inr (tok, e) ↦ elim (Option-cases (get tok a.sessions)) [
      | inl g ↦ absurd (ground arith)
      | inr (exp, g) ↦ record {
        token = tok;
        expires = exp;
        carried = e;
        held = g;
        fresh = ground arith;
      }
    ]
  ]

  session_valid_complete :
      (now : ℕ) (jar : Jar) (a : AuthState c)
      → SignedIn now jar a.sessions
      → session_valid c now jar a ≡ (a, true)
  unfolding session_valid
  session_valid_complete now jar a s = ground arith

  -- A check succeeds exactly when the request carries the token of a session that has not expired,
  -- and then it changes nothing.
  pub session_valid_iff :
      (now : ℕ) (jar : Jar) (a : AuthState c)
      → ((session_valid c now jar a).1 ≡ true) ↔ SignedIn now jar a.sessions
  session_valid_iff now jar a =
      (session_valid_sound now jar a, λ s. rw (session_valid_complete now jar a s))

  pub session_valid-same :
      (now : ℕ) (jar : Jar) (a : AuthState c)
      → (session_valid c now jar a).1 ≡ true
      → (session_valid c now jar a).0 ≡ a
  session_valid-same now jar a h =
      rw (session_valid_complete now jar a (session_valid_sound now jar a h))

  -- A check touches the sessions only, and removes one at most.
  pub session_valid-frame :
      (now : ℕ) (jar : Jar) (a : AuthState c)
      → (s : Map ℕ) × ((session_valid c now jar a).0 ≡ record a { sessions = s })
        × Shrinks a.sessions s
  unfolding session_valid
  session_valid-frame now jar a = elim (Option-cases (get_cookie jar session_cookie)) [
    | inl e ↦ (a.sessions, rw (e, session_valid), same refl)
    | inr (tok, e) ↦ elim (Option-cases (get tok a.sessions)) [
      | inl g ↦ (a.sessions, rw (e, g, session_valid), same refl)
      | inr (exp, g) ↦ elim (Bool-cases (ltb now exp)) [
        | inl t ↦ (a.sessions, rw (e, g, t, session_valid), same refl)
        | inr f ↦ (remove tok a.sessions, rw (e, g, f, session_valid), without tok refl)
      ]
    ]
  ]

  pub session_valid-cases :
      (now : ℕ) (jar : Jar) (a : AuthState c)
      → ((session_valid c now jar a ≡ (a, true)) × SignedIn now jar a.sessions)
        ⊎ ((s : Map ℕ) × (session_valid c now jar a ≡ (record a { sessions = s }, false))
            × Shrinks a.sessions s)
  session_valid-cases now jar a = elim (Bool-cases (session_valid c now jar a).1) [
    | inl t ↦ let s = session_valid_sound now jar a t in inl (session_valid_complete now jar a s, s)
    | inr f ↦ let (s, e, h) = session_valid-frame now jar a in inr (s, ground arith, h)
  ]

  -- `sweep` keeps, of the three maps, exactly the entries that expire after `now`, and leaves the
  -- credentials and the enrolment code alone.
  pub sweep-get :
      (now : ℕ) (k : Text) (a : AuthState c)
      → Distinct a.reg
      → Distinct a.auth
      → Distinct a.sessions
      → (get k (sweep c now a).reg ≡ keep_if (λ p. ltb now p.expires) (get k a.reg))
        × (get k (sweep c now a).auth ≡ keep_if (λ p. ltb now p.expires) (get k a.auth))
        × (get k (sweep c now a).sessions ≡ keep_if (λ e. ltb now e) (get k a.sessions))
        × ((sweep c now a).store ≡ a.store)
        × ((sweep c now a).bootstrap ≡ a.bootstrap)
  unfolding sweep
  sweep-get now k a dr da ds = (
    get-retain (λ p. ltb now p.expires) k a.reg dr,
    get-retain (λ p. ltb now p.expires) k a.auth da,
    get-retain (λ e. ltb now e) k a.sessions ds,
    refl,
    refl,
  )
