-- ===== src/Auth/Register/Outcome.antt =====
-- auth.rs, `register_finish`: its outcomes, on success and on every error.
use vm_vitals.Base.{
  ◌<◌, ◌≡◌, refl, ap, ◌⊎◌, inl, inr, [], ◌∷◌, ◌++◌, some, Option-cases, Text, get, remove, Result,
  ok, err, Result-cases,
}
use vm_vitals.Base.Http.{Status, Reject}
use vm_vitals.Auth.Crates.{Crates}
use vm_vitals.Auth.State.{AuthState, Env, PendingReg}
use vm_vitals.Auth.Session.{reg_cookie, clear_cookie, new_session}
use vm_vitals.Auth.Session.Valid.{same}
use vm_vitals.Auth.Register.{
  take_registration, close_bootstrap, later_clock, register_finish, no_ceremony, ceremony_expired,
}
use vm_vitals.Auth.Register.Steps.{
  Kept, Enrolled, Kept-refl, Kept-part, enrol-cases, save-cases, close_bootstrap-fields,
  take_registration-cases,
}

module _ (c : Crates) where
  open c use {
    Passkey, Registration, RegisterCredential, Jar, cred_id, cred_eq, get_cookie,
    finish_passkey_registration, to_string_pretty,
  }

  -- The end of a successful request: `b` is the state before the new session.
  abbrev pub issued : Env → Jar → AuthState c → AuthState c × Result (Jar × Status) Reject
  issued env jar b = (
    (new_session c (later_clock env) b).0,
    ok (
      c.add_cookie (c.remove_cookie jar (clear_cookie reg_cookie))
          (new_session c (later_clock env) b).1,
      Status.ok,
    ),
  )

  abbrev pub Refused : AuthState c → AuthState c × Result (Jar × Status) Reject → Type 0
  Refused a r = (b : AuthState c) × (e : Reject) × (r ≡ (b, err e)) × Kept c a b

  abbrev pub Accepts :
      Env
      → Jar
      → RegisterCredential
      → AuthState c
      → AuthState c × Result (Jar × Status) Reject
      → Type 0
  Accepts env jar cred a r =
      (b : AuthState c) × (r ≡ issued env jar b)
      × Enrolled c env jar cred a b
      × (b.sessions ≡ a.sessions)

  -- The part of the handler from the verified credential on.
  verified_cases :
      (env : Env) (jar : Jar) (cred : RegisterCredential) (a : AuthState c) (rid : Text)
      (p : PendingReg c) (pk : Passkey)
      → get_cookie jar reg_cookie ≡ some rid
      → take_registration c (env.clock 0) rid a
        ≡ (record a { reg = remove rid a.reg }, ok (p.state, p.mode))
      → get rid a.reg ≡ some p
      → env.clock 0 < p.expires
      → finish_passkey_registration cred p.state ≡ ok pk
      → Accepts env jar cred a (register_finish c env jar cred a)
        ⊎ Refused a (register_finish c env jar cred a)
  unfolding register_finish
  verified_cases env jar cred a rid p pk carried taken started fresh verified =
      let a1 : AuthState c = record a { reg = remove rid a.reg } in
      elim (enrol-cases c (env.clock 1) jar p.mode pk a1) [
        | inr (s, x, e, h) ↦ inr (
          record a1 { sessions = s },
          x,
          rw (carried, register_finish, taken, verified, e),
          Kept-part c a rid s a.disk h refl,
        )
        | inl (e, authorised, unknown) ↦ elim (save-cases c env pk a1) [
          | inr (d, x, v, j) ↦ inr (
            record a1 { disk = d },
            x,
            rw (carried, register_finish, taken, verified, e, v),
            Kept-part c a rid a.sessions d (same refl) j,
          )
          | inl (d, json, v, w, j) ↦
              let stored : AuthState c = record a1 {
                store = record {
                  user_id = a.store.user_id;
                  passkeys = a.store.passkeys ++ pk ∷ [];
                };
                disk = d;
              } in
              let (st, dk, au, se, re, co) = close_bootstrap-fields c p.mode stored in
              inl (
                close_bootstrap c p.mode stored,
                rw (carried, register_finish, taken, verified, e, v),
                record {
                  rid = rid;
                  pending = p;
                  passkey = pk;
                  json = json;
                  carried = carried;
                  started = started;
                  fresh = fresh;
                  verified = verified;
                  authorised = authorised;
                  unknown = unknown;
                  user_id = ap (λ s. s.user_id) st;
                  passkeys = ap (λ s. s.passkeys) st;
                  written = rw st w;
                  saved = rw dk j;
                  auth = au;
                  reg = re;
                  code = co;
                },
                se,
              )
        ]
      ]

  -- Either the request is authorised by a verified, unexpired ceremony, and one new credential is
  -- enrolled and on disk before the session is issued; or it is refused and nothing is enrolled.
  pub register_finish_cases :
      (env : Env) (jar : Jar) (cred : RegisterCredential) (a : AuthState c)
      → Accepts env jar cred a (register_finish c env jar cred a)
        ⊎ Refused a (register_finish c env jar cred a)
  unfolding register_finish
  register_finish_cases env jar cred a = elim (Option-cases (get_cookie jar reg_cookie)) [
    | inl n ↦ inr (a, no_ceremony, rw (n, register_finish), Kept-refl c a)
    | inr (rid, carried) ↦ elim (take_registration-cases c (env.clock 0) rid a) [
      | inl n ↦ inr (a, ceremony_expired, rw (carried, register_finish, n), Kept-refl c a)
      | inr (inl n) ↦ inr (
        record a { reg = remove rid a.reg },
        ceremony_expired,
        rw (carried, register_finish, n),
        Kept-part c a rid a.sessions a.disk (same refl) refl,
      )
      | inr (inr (p, taken, started, fresh)) ↦
          elim (Result-cases (finish_passkey_registration cred p.state)) [
            | inr (x, bad) ↦ inr (
              record a { reg = remove rid a.reg },
              (Status.bad_request, x),
              rw (carried, register_finish, taken, bad),
              Kept-part c a rid a.sessions a.disk (same refl) refl,
            )
            | inl (pk, good) ↦
                verified_cases env jar cred a rid p pk carried taken started fresh good
          ]
    ]
  ]
