-- ===== src/Web/Gate/Access.antt =====
-- web.rs, `require_api_auth`: the reasons to let a request through.
use vm_vitals.Base.{
  ℕ, ◌≡◌, refl, ◌↔◌, ◌⊎◌, inl, inr, true, false, ◌++◌, Option, none, some, arith, Bool-cases,
  Option-cases, Text, codes, strip_prefix-some, strip_prefix-append, as_bytes, ok, err,
}
use vm_vitals.Base.Http.{Status}
use vm_vitals.Web.Compare.{ct_eq_iff, ct_eq_self}
use vm_vitals.Auth.Crates.{Crates}
use vm_vitals.Auth.State.{AuthState}
use vm_vitals.Auth.Session.Valid.{SignedIn, session_valid_iff}
use vm_vitals.Web.Gate.{Request, bearer, bearer_ok, require_api_auth}

-- The header is `Bearer ` and the token, byte for byte.
pub record Bears (token : Text) (header : Option (Option Text)) : Type 0 where
  pub got : Text
  pub sent : header ≡ some (some (codes "Bearer " ++ got))
  pub matches : as_bytes got ≡ as_bytes token

bearer_sound :
    (h : Option (Option Text)) (got : Text)
    → bearer h ≡ some got
    → h ≡ some (some (codes "Bearer " ++ got))
unfolding bearer
bearer_sound none got e = cc
bearer_sound (some none) got e = cc
bearer_sound (some (some t)) got e = cc (strip_prefix-some (codes "Bearer ") t got e)

bearer_ok_sound :
    (token : Text) (h : Option (Option Text)) → bearer_ok token h ≡ true → Bears token h
unfolding bearer_ok
bearer_ok_sound token h e = elim (Option-cases (bearer h)) [
  | inl n ↦ let e' = rw n at e in absurd (ground arith)
  | inr (got, g) ↦
      let e' = rw g at e in
      record { got = got; sent = bearer_sound h got g; matches = (ct_eq_iff _ _).0 e' }
]

bearer_ok_complete :
    (token : Text) (h : Option (Option Text)) → Bears token h → bearer_ok token h ≡ true
unfolding bearer_ok bearer
bearer_ok_complete token h b =
    rw (b.sent, strip_prefix-append, b.matches) (ct_eq_self (as_bytes token))

module _ (c : Crates) where
  -- A reason to let a request through.
  pub data Permitted (now : ℕ) (req : Request c.Jar) (token : Option Text)
      (auth : Option (AuthState c)) : Type 0 where
    by_token :
        (t : Text) → token ≡ some t → Bears t req.authorization → Permitted now req token auth
    by_session :
        (a : AuthState c)
        → auth ≡ some a
        → SignedIn c now req.jar a.sessions
        → Permitted now req token auth
    unconfigured : token ≡ none → auth ≡ none → Permitted now req token auth

  module _ (now : ℕ) (req : Request c.Jar) where
    Permitted-of_ok :
        (token : Option Text) (auth : Option (AuthState c))
        → (require_api_auth c now req token auth).1 ≡ ok tt
        → Permitted now req token auth
    unfolding require_api_auth
    Permitted-of_ok none none h = unconfigured refl refl
    Permitted-of_ok none (some a) h =
        by_session a refl ((session_valid_iff c now req.jar a).0 (ground arith))
    Permitted-of_ok (some t) auth h = elim (Bool-cases (bearer_ok t req.authorization)) [
      | inl e ↦ by_token t refl (bearer_ok_sound t req.authorization e)
      | inr e ↦ by_cookie t auth e h
    ]
      where
        by_cookie :
            (t : Text) (auth : Option (AuthState c))
            → bearer_ok t req.authorization ≡ false
            → (require_api_auth c now req (some t) auth).1 ≡ ok tt
            → Permitted now req (some t) auth
        by_cookie t none e h = absurd (ground arith)
        by_cookie t (some a) e h =
            by_session a refl ((session_valid_iff c now req.jar a).0 (ground arith))

    ok_of_Permitted :
        (token : Option Text) (auth : Option (AuthState c))
        → Permitted now req token auth
        → (require_api_auth c now req token auth).1 ≡ ok tt
    unfolding require_api_auth
    ok_of_Permitted token auth (by_token t e b) = rw (e, bearer_ok_complete t req.authorization b)
    ok_of_Permitted token auth (by_session a e s) =
        rw e (ground (arith, (session_valid_iff c now req.jar a).1 s))
    ok_of_Permitted token auth (unconfigured e f) = rw (e, f)

    -- A request passes exactly when it bears the configured token, or carries a live session, or
    -- neither a token nor passkey sign-in is configured; any other gets 401.
    pub require_api_auth_iff :
        (token : Option Text) (auth : Option (AuthState c))
        → ((require_api_auth c now req token auth).1 ≡ ok tt) ↔ Permitted now req token auth
    require_api_auth_iff token auth = (Permitted-of_ok token auth, ok_of_Permitted token auth)

    -- The only refusal is 401.
    require_api_auth-cases :
        (token : Option Text) (auth : Option (AuthState c))
        → ((require_api_auth c now req token auth).1 ≡ ok tt)
          ⊎ ((require_api_auth c now req token auth).1 ≡ err Status.unauthorized)
    unfolding require_api_auth
    require_api_auth-cases token auth = ground arith

    pub require_api_auth-refuses :
        (token : Option Text) (auth : Option (AuthState c))
        → ¬ Permitted now req token auth
        → (require_api_auth c now req token auth).1 ≡ err Status.unauthorized
    require_api_auth-refuses token auth out = elim (require_api_auth-cases token auth) [
      | inl e ↦ absurd (out (Permitted-of_ok token auth e))
      | inr e ↦ e
    ]
