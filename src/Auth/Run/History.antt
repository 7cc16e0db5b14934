-- ===== src/Auth/Run/History.antt =====
-- auth.rs: the enrolled credentials over a history of requests and restarts.
use mathlib.Core.List.{append-nil, append_assoc}
use vm_vitals.Base.{
  ℕ, ◌≡◌, refl, ap, sym, ◌∙◌, inl, inr, false, List, [], ◌∷◌, ◌++◌, Option, Option-cases, Text,
  arith,
}
use vm_vitals.Auth.Crates.{Crates, CredEqual, UpdateKeepsId, JsonRoundTrip}
use vm_vitals.Auth.State.{AuthState, Env}
use vm_vitals.Auth.Session.{session_valid, sweep, session_cookie}
use vm_vitals.Auth.Session.Valid.{session_valid-frame}
use vm_vitals.Auth.Session.Issue.{new_session-frame}
use vm_vitals.Auth.Register.{register_start, register_finish, later_clock}
use vm_vitals.Auth.Register.Begin.{register_start_cases}
use vm_vitals.Auth.Register.Outcome.{register_finish_cases}
use vm_vitals.Auth.Login.{login_start, login_finish, logout}
use vm_vitals.Auth.Login.Outcome.{login_start_cases, login_finish_cases}
use vm_vitals.Auth.Run.{
  Op, step, enrols, Reach, starts_registration, finishes_registration, starts_login, finishes_login,
  logs_out, checks, sweeps, serves, restarts, here, next,
}
use vm_vitals.Auth.Run.Invariant.{Inv, ids, ids-update}
use vm_vitals.Auth.Run.Preserve.{map-push}
use vm_vitals.Auth.Run.Restart.{Inv-restart}
use vm_vitals.Auth.Run.Steps.{Reach-Inv}

module _ (c : Crates) where
  open c use {Jar, RegisterCredential, LoginCredential, CredentialId, get_cookie, cred_id}

  abbrev pub enrolled_ids : AuthState c → List CredentialId
  enrolled_ids a = ids c a.store.passkeys

  -- The second list is the first, and perhaps more behind it.
  abbrev pub Extends : List CredentialId → List CredentialId → Type 0
  Extends xs ys = (l : List CredentialId) × (ys ≡ xs ++ l)

  Extends-same : {xs ys : List CredentialId} → ys ≡ xs → Extends xs ys
  Extends-same e = ([], e ∙ sym (append-nil _))

  Extends-trans : (xs ys zs : List CredentialId) → Extends xs ys → Extends ys zs → Extends xs zs
  Extends-trans xs ys zs (l, e) (m, f) = (l ++ m, f ∙ ap (λ z. z ++ m) e ∙ append_assoc xs l m)

  register_start-ids :
      (env : Env) (jar : Jar) (body : Option (Option Text)) (a : AuthState c)
      → enrolled_ids (register_start c env jar body a).0 ≡ enrolled_ids a
  register_start-ids env jar body a = elim (register_start_cases c env jar body a) [
    | inl (b, ccr, e, s) ↦ rw (e, s.passkeys)
    | inr (s, x, e, h) ↦ rw e
  ]

  login_start-ids :
      (env : Env) (jar : Jar) (a : AuthState c)
      → enrolled_ids (login_start c env jar a).0 ≡ enrolled_ids a
  login_start-ids env jar a = elim (login_start_cases c env jar a) [
    | inl (rcr, state, claimed, start, e) ↦ rw e
    | inr (x, e) ↦ rw e
  ]

  login_finish-ids :
      UpdateKeepsId c
      → (env : Env) (jar : Jar) (cred : LoginCredential) (a : AuthState c)
      → enrolled_ids (login_finish c env jar cred a).0 ≡ enrolled_ids a
  login_finish-ids upd env jar cred a = elim (login_finish_cases c env jar cred a) [
    | inl (b, e, s) ↦
        let (m, frame) = new_session-frame c (later_clock env) b in
        rw (e, frame, s.passkeys) (ids-update c upd s.result a.store.passkeys)
    | inr (x, e) ↦ rw e
  ]

  logout-ids : (jar : Jar) (a : AuthState c) → enrolled_ids (logout c jar a).0 ≡ enrolled_ids a
  unfolding logout
  logout-ids jar a = elim (Option-cases (get_cookie jar session_cookie)) [
    | inl e ↦ rw (e, logout)
    | inr (tok, e) ↦ rw (e, logout)
  ]

  checks-ids :
      (now : ℕ) (jar : Jar) (a : AuthState c)
      → enrolled_ids (session_valid c now jar a).0 ≡ enrolled_ids a
  checks-ids now jar a = let (s, e, h) = session_valid-frame c now jar a in rw e

  -- Nothing but the finish of a registration changes which credentials are enrolled.
  pub step-ids :
      UpdateKeepsId c
      → (op : Op c) (a : AuthState c) → enrols c op ≡ false
      → enrolled_ids (step c op a) ≡ enrolled_ids a
  unfolding step sweep
  step-ids upd (starts_registration env jar body) a h = register_start-ids env jar body a
  step-ids upd (finishes_registration env jar cred) a h = absurd (ground arith)
  step-ids upd (starts_login env jar) a h = login_start-ids env jar a
  step-ids upd (finishes_login env jar cred) a h = login_finish-ids upd env jar cred a
  step-ids upd (logs_out jar) a h = logout-ids jar a
  step-ids upd (checks now jar) a h = checks-ids now jar a
  step-ids upd (sweeps now) a h = refl

  register_finish-Extends :
      (env : Env) (jar : Jar) (cred : RegisterCredential) (a : AuthState c)
      → Extends (enrolled_ids a) (enrolled_ids (register_finish c env jar cred a).0)
  register_finish-Extends env jar cred a = elim (register_finish_cases c env jar cred a) [
    | inl (b, e, s, se) ↦
        let (m, frame) = new_session-frame c (later_clock env) b in
        (
          cred_id s.passkey ∷ [],
          rw (e, frame, s.passkeys) (map-push cred_id a.store.passkeys s.passkey),
        )
    | inr (b, x, e, k) ↦ Extends-same (rw (e, k.store))
  ]

  step-Extends :
      UpdateKeepsId c
      → (op : Op c) (a : AuthState c) → Extends (enrolled_ids a) (enrolled_ids (step c op a))
  unfolding step
  step-Extends upd (finishes_registration env jar cred) a = register_finish-Extends env jar cred a
  step-Extends upd (starts_registration env jar body) a =
      Extends-same (step-ids upd (starts_registration env jar body) a refl)
  step-Extends upd (starts_login env jar) a =
      Extends-same (step-ids upd (starts_login env jar) a refl)
  step-Extends upd (finishes_login env jar cred) a =
      Extends-same (step-ids upd (finishes_login env jar cred) a refl)
  step-Extends upd (logs_out jar) a = Extends-same (step-ids upd (logs_out jar) a refl)
  step-Extends upd (checks now jar) a = Extends-same (step-ids upd (checks now jar) a refl)
  step-Extends upd (sweeps now) a = Extends-same (step-ids upd (sweeps now) a refl)

  -- Whatever is served to its end, fails to be written or is restarted, the credentials that were
  -- enrolled stay enrolled, in their order.
  pub Reach-Extends :
      CredEqual c
      → UpdateKeepsId c
      → JsonRoundTrip c
      → {a b : AuthState c} → Inv c a
      → Reach c a b
      → Extends (enrolled_ids a) (enrolled_ids b)
  Reach-Extends eq upd round inv here = Extends-same refl
  Reach-Extends eq upd round {a} inv (next {b = b} {d = d} r (serves op e)) =
      Extends-trans (enrolled_ids a) (enrolled_ids b) (enrolled_ids d)
        (Reach-Extends eq upd round inv r) (rw e (step-Extends upd op b))
  Reach-Extends eq upd round {a} inv (next {b = b} {d = d} r (restarts env setup readable e)) =
      Extends-trans (enrolled_ids a) (enrolled_ids b) (enrolled_ids d)
        (Reach-Extends eq upd round inv r)
        (Extends-same (Inv-restart c b d env setup readable (Reach-Inv c eq upd round inv r) e).1)
