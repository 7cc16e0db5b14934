-- ===== src/Auth/Pages/Views.antt =====
-- auth.rs, `index`, `status` and `logout`, and the gate of web.rs: what a browser gets to see.
use vm_vitals.Base.{
  ℕ, ◌≡◌, ◌↔◌, inl, inr, true, false, [], Option, none, some, arith, Option-cases, Text, get,
  remove, get-remove_self, is_empty, is_empty-cases, ok,
}
use vm_vitals.Auth.Crates.{Crates}
use vm_vitals.Auth.State.{AuthState}
use vm_vitals.Auth.Session.{registered, session_valid, session_cookie}
use vm_vitals.Auth.Session.Valid.{SignedIn, session_valid_iff}
use vm_vitals.Auth.Login.{logout}
use vm_vitals.Auth.Pages.{Page, index, status}
use vm_vitals.Auth.Run.Invariant.{Inv}
use vm_vitals.Web.Gate.{require_api_auth}

module _ (c : Crates) where
  open c use {Jar, get_cookie}

  -- For a browser that sends its cookies and no token, with passkey sign-in on, the page is the
  -- dashboard, the status says signed in, and the gate lets the API through, all three or none.
  pub views_agree :
      (now : ℕ) (jar : Jar) (token : Option Text) (a : AuthState c)
      → (((index c now jar (some a)).1 ≡ Page.dashboard_html)
          ↔ ((status c now jar (some a)).1.signed_in ≡ true))
        × (((require_api_auth c now (record { authorization = none; jar = jar }) token (some a)).1
              ≡ ok tt)
            ↔ ((status c now jar (some a)).1.signed_in ≡ true))
  unfolding index status require_api_auth
  views_agree now jar none a =
      ((λ h. ground arith, λ h. ground arith), (λ h. ground arith, λ h. ground arith))
  views_agree now jar (some t) a =
      ((λ h. ground arith, λ h. ground arith), (λ h. ground arith, λ h. ground arith))

  SignedIn-claimed :
      (now : ℕ) (jar : Jar) (a : AuthState c)
      → Inv c a
      → SignedIn c now jar a.sessions
      → is_empty a.store.passkeys ≡ false
  unfolding get
  SignedIn-claimed now jar a inv s = elim (is_empty-cases a.store.passkeys) [
    | inr some_yet ↦ some_yet
    | inl none_yet ↦
        let (empty, _) = inv.unclaimed none_yet in
        let held : get s.token [] ≡ some s.expires = rw empty at s.held in absurd (ground arith)
  ]

  -- The status never says signed in of an account that nobody has claimed, in a state with the
  -- invariant.
  pub status-signed_in :
      (now : ℕ) (jar : Jar) (a : AuthState c)
      → Inv c a
      → (status c now jar (some a)).1.signed_in ≡ true
      → (status c now jar (some a)).1.registered ≡ true
  unfolding status registered
  status-signed_in now jar a inv h =
      rw (SignedIn-claimed now jar a inv ((session_valid_iff c now jar a).0 (ground arith)))

  session_valid_gone :
      (now : ℕ) (jar : Jar) (a : AuthState c) (tok : Text)
      → get_cookie jar session_cookie ≡ some tok
      → get tok a.sessions ≡ none
      → (session_valid c now jar a).1 ≡ false
  unfolding session_valid
  session_valid_gone now jar a tok e gone = ground arith

  logout_sessions :
      (jar : Jar) (a : AuthState c) (tok : Text)
      → get_cookie jar session_cookie ≡ some tok
      → (logout c jar a).0.sessions ≡ remove tok a.sessions
  unfolding logout
  logout_sessions jar a tok e = rw e

  session_valid_absent :
      (now : ℕ) (jar : Jar) (a : AuthState c)
      → get_cookie jar session_cookie ≡ none
      → (session_valid c now jar a).1 ≡ false
  unfolding session_valid
  session_valid_absent now jar a e = ground arith

  -- After a sign-out the cookies that the browser sent open no session any more, at any time.
  pub logout-session_valid :
      (now : ℕ) (jar : Jar) (a : AuthState c)
      → (session_valid c now jar (logout c jar a).0).1 ≡ false
  logout-session_valid now jar a = elim (Option-cases (get_cookie jar session_cookie)) [
    | inl e ↦ session_valid_absent now jar (logout c jar a).0 e
    | inr (tok, e) ↦
        session_valid_gone now jar (logout c jar a).0 tok e
          (rw (logout_sessions jar a tok e) (get-remove_self tok a.sessions))
  ]
