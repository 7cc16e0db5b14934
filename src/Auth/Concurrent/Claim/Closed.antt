-- ===== src/Auth/Concurrent/Claim/Closed.antt =====
-- auth.rs: a server that nobody has claimed, with finishes of registrations and of sign-ins in flight.
use vm_vitals.Base.{
  ℕ, zero, suc, ◌≡◌, refl, inl, inr, List, [], ◌∷◌, All, All-push, Text, ok, err, Option-cases, get,
}
use vm_vitals.Base.Http.{Reject}
use vm_vitals.Auth.Crates.{Crates}
use vm_vitals.Auth.State.{AuthState, Env}
use vm_vitals.Auth.Session.{reg_cookie, auth_cookie}
use vm_vitals.Auth.Register.{no_ceremony, ceremony_expired}
use vm_vitals.Auth.Login.Sections.{
  entered, proven, advanced, writing, written, replied, prove, advance_login,
}
use vm_vitals.Auth.Concurrent.{
  Place, arrived, verified, pushed, serialized, unsaved, saved, cleared, closed, answered, redeem,
  advance, advance_at, turn, System, Reach, arrives, enters, login, moves, serves, here, next,
}
use vm_vitals.Auth.Concurrent.Claim.{Unclaimed, IsBlind, step-Unclaimed}

module _ (c : Crates) where
  open c use {Jar, RegisterCredential, LoginCredential, get_cookie}

  -- A request that waits, or that was refused.
  abbrev IsOut : Place c → Type 0
  IsOut (arrived env jar cred) = Unit
  IsOut (answered (ok r)) = ⊥
  IsOut (answered (err e)) = Unit
  IsOut (login (entered env jar cred)) = Unit
  IsOut (login (replied (err e))) = Unit
  IsOut p = ⊥

  redeem-Unclaimed :
      (code : Text) (env : Env) (jar : Jar) (cred : RegisterCredential) (a : AuthState c)
      → Unclaimed c code a
      → (e : Reject) × (redeem c env jar cred a ≡ (a, err e))
  unfolding redeem get
  redeem-Unclaimed code env jar cred a u = elim (Option-cases (get_cookie jar reg_cookie)) [
    | inl e ↦ (no_ceremony, rw e refl)
    | inr (rid, e) ↦ (ceremony_expired, rw (e, u.reg) refl)
  ]

  prove-Unclaimed :
      (code : Text) (env : Env) (jar : Jar) (cred : LoginCredential) (a : AuthState c)
      → Unclaimed c code a
      → (e : Reject) × (prove c env jar cred a ≡ (a, err e))
  unfolding prove get
  prove-Unclaimed code env jar cred a u = elim (Option-cases (get_cookie jar auth_cookie)) [
    | inl e ↦ (no_ceremony, rw e refl)
    | inr (rid, e) ↦ (ceremony_expired, rw (e, u.auth) refl)
  ]

  advance-Unclaimed :
      (code : Text) (p : Place c) (a : AuthState c)
      → Unclaimed c code a
      → IsOut p
      → Unclaimed c code (advance c p a).0 × IsOut (advance c p a).1
  unfolding advance advance_login
  advance-Unclaimed code (arrived env jar cred) a u o =
      let (x, e) = redeem-Unclaimed code env jar cred a u in rw e (u, tt)
  advance-Unclaimed code (verified env jar mode pk) a u o = absurd o
  advance-Unclaimed code (pushed env jar mode) a u o = absurd o
  advance-Unclaimed code (serialized env jar mode json) a u o = absurd o
  advance-Unclaimed code (unsaved x) a u o = absurd o
  advance-Unclaimed code (saved env jar mode) a u o = absurd o
  advance-Unclaimed code (cleared env jar) a u o = absurd o
  advance-Unclaimed code (closed env jar) a u o = absurd o
  advance-Unclaimed code (answered r) a u o = (u, o)
  advance-Unclaimed code (login (entered env jar cred)) a u o =
      let (x, e) = prove-Unclaimed code env jar cred a u in rw e (u, tt)
  advance-Unclaimed code (login (proven env jar result)) a u o = absurd o
  advance-Unclaimed code (login (advanced env jar)) a u o = absurd o
  advance-Unclaimed code (login (writing env jar json)) a u o = absurd o
  advance-Unclaimed code (login (written env jar)) a u o = absurd o
  advance-Unclaimed code (login (replied r)) a u o = (u, o)

  advance_at-Unclaimed :
      (code : Text) (n : ℕ) (ps : List (Place c)) (a : AuthState c)
      → Unclaimed c code a
      → All IsOut ps
      → Unclaimed c code (advance_at c n ps a).0 × All IsOut (advance_at c n ps a).1
  unfolding advance_at
  advance_at-Unclaimed code n [] a u o = (u, o)
  advance_at-Unclaimed code zero (p ∷ ps) a u o =
      let (v, q) = advance-Unclaimed code p a u o.0 in (v, (q, o.1))
  advance_at-Unclaimed code (suc n) (p ∷ ps) a u o =
      let (v, qs) = advance_at-Unclaimed code n ps a u o.1 in (v, (o.0, qs))

  -- No request of the run carries the code.
  abbrev pub AllBlind : Text → {s t : System c} → Reach c s t → Type 0
  AllBlind code here = Unit
  AllBlind code (next r (arrives env jar cred e)) = AllBlind code r
  AllBlind code (next r (enters env jar cred e)) = AllBlind code r
  AllBlind code (next r (moves n e)) = AllBlind code r
  AllBlind code (next r (serves op whole e)) = AllBlind code r × IsBlind c code op

  -- The whole server.
  abbrev Waits : Text → System c → Type 0
  Waits code s = Unclaimed c code s.state × All IsOut s.requests

  Reach-Waits :
      (code : Text) (s t : System c) (r : Reach c s t)
      → AllBlind code r
      → Waits code s
      → Waits code t
  unfolding turn
  Reach-Waits code s t here blind w = w
  Reach-Waits code s t (next {t = m} r (arrives env jar cred e)) blind w =
      let (u, o) = Reach-Waits code s m r blind w in
      rw e (u, All-push IsOut m.requests (arrived env jar cred) o tt)
  Reach-Waits code s t (next {t = m} r (enters env jar cred e)) blind w =
      let (u, o) = Reach-Waits code s m r blind w in
      rw e (u, All-push IsOut m.requests (login (entered env jar cred)) o tt)
  Reach-Waits code s t (next {t = m} r (moves n e)) blind w =
      let (u, o) = Reach-Waits code s m r blind w in
      rw e (advance_at-Unclaimed code n m.requests m.state u o)
  Reach-Waits code s t (next {t = m} r (serves op whole e)) blind w =
      let (u, o) = Reach-Waits code s m r blind.0 w in
      rw e (step-Unclaimed c code op m.state whole blind.1 u, o)

  -- On a server that nobody has claimed, with no finish of a registration or a sign-in in flight: as long as no
  -- request that starts a registration carries the enrolment code, nobody is enrolled or signed in and
  -- nothing is under way, however requests come and interleave, and the code still waits.
  pub Reach-Unclaimed :
      (code : Text) (a : AuthState c) (t : System c)
      (r : Reach c (record { state = a; requests = [] }) t)
      → AllBlind code r
      → Unclaimed c code a
      → Unclaimed c code t.state
  Reach-Unclaimed code a t r blind u =
      (Reach-Waits code (record { state = a; requests = [] }) t r blind (u, tt)).0
