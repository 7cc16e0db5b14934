-- ===== src/Tests/Accounts.antt =====
-- Enrolment: the first administrator, an attacker with a ceremony in the bank, a restart.
use vm_vitals.Base.{
  ℕ, ◌≡◌, refl, ◌⊎◌, String, [], ◌∷◌, Option, none, some, arith, Text, ok, err, as_bytes, trim,
  encode_char, insert, Map, remove, retain, get, text_eq,
}
use vm_vitals.Base.Hex.{hex32}
use vm_vitals.Base.Http.{Reject}
use vm_vitals.Auth.State.{AuthState, bootstrap}
use vm_vitals.Auth.Session.{
  reg_cookie, session_cookie, session_valid, new_session, build_cookie, clear_cookie,
}
use vm_vitals.Auth.Session.Valid.{Shrinks}
use vm_vitals.Web.Compare.{ct_eq}
use vm_vitals.Auth.Ceremony.{insert_capped}
use vm_vitals.Auth.Persist.{persist, load_store}
use vm_vitals.Auth.Register.{register_start, register_finish}
use vm_vitals.Auth.Register.Begin.{Started, register_start_cases}
use vm_vitals.Auth.Register.Outcome.{Accepts, Refused, register_finish_cases}
use vm_vitals.Auth.Run.{
  Op, step, Reach, starts_registration, finishes_registration, here, next, serves,
}
use vm_vitals.Auth.Run.Invariant.{Inv}
use vm_vitals.Auth.Run.Steps.{Reach-Inv}
use vm_vitals.Auth.Run.History.{Extends, enrolled_ids, Reach-Extends}
use vm_vitals.Auth.Run.Access.{register_finish-claimed}
use vm_vitals.Tests.Toy.{
  toy, toy-CredEqual, toy-UpdateKeepsId, toy-JsonRoundTrip, env_at, no_cookies, unclaimed,
  with_cookie, token_of, encode,
}

-- The browser that holds the cookie of the ceremony "01".
abbrev pub reg_jar : String → Option Text
reg_jar = with_cookie reg_cookie (token_of 1)

-- The enrolment code between spaces.
abbrev code_body : Option (Option Text)
code_body = some (some (32 ∷ 65 ∷ 32 ∷ []))

-- The ceremony has started, and expires at 400.
abbrev pub started : AuthState toy
started = record unclaimed {
  store = record { user_id = some 7; passkeys = [] };
  reg = (token_of 1, record { state = 42; mode = bootstrap; expires = 400 }) ∷ [];
}

-- Credential 5 is enrolled; its bearer's session is "02".
abbrev pub claimed : AuthState toy
claimed = record {
  store = record { user_id = some 7; passkeys = (5, 0) ∷ [] };
  disk = record { json = some (1 ∷ 7 ∷ 5 ∷ 0 ∷ []); tmp = none };
  reg = [];
  auth = [];
  sessions = (token_of 2, 43310) ∷ [];
  bootstrap = none;
}

enrols :
    ((register_start toy (env_at 100 1) no_cookies code_body unclaimed).0 ≡ started)
    × ((register_finish toy (env_at 110 2) reg_jar (42, 5) started).0 ≡ claimed)
unfolding register_start register_finish session_valid ct_eq as_bytes trim encode_char insert_capped
    insert remove retain get text_eq hex32 persist encode new_session
enrols = (refl, refl)

-- The browser after the response.
abbrev final_jar : String → Option Text
unfolding build_cookie clear_cookie
final_jar =
    toy.add_cookie (toy.remove_cookie reg_jar (clear_cookie reg_cookie))
      (build_cookie session_cookie (token_of 2))

unclaimed-Inv : Inv toy unclaimed
unfolding load_store
unclaimed-Inv = record {
  unclaimed = λ _. (refl, refl);
  code_burnt = λ h. absurd (ground arith);
  no_banked = λ h k p g. absurd (ground arith);
  reg_distinct = tt;
  auth_distinct = tt;
  sessions_distinct = tt;
  reg_bound = omega arith;
  auth_bound = omega arith;
  sessions_bound = omega arith;
  ids_distinct = tt;
  durable = (record { user_id = none; passkeys = [] }, refl, refl);
}

abbrev opens : Op toy
opens = starts_registration (env_at 100 1) no_cookies code_body

abbrev closes : Op toy
closes = finishes_registration (env_at 110 2) reg_jar (42, 5)

history : Reach toy unclaimed (step toy closes (step toy opens unclaimed))
history = next (next here (serves opens refl)) (serves closes refl)

pub claimed-Inv : Inv toy claimed
unfolding step
claimed-Inv =
    rw (← enrols.1, ← enrols.0)
      (Reach-Inv toy toy-CredEqual toy-UpdateKeepsId toy-JsonRoundTrip unclaimed-Inv history)

Reach-Inv_example : Inv toy (step toy closes (step toy opens unclaimed))
Reach-Inv_example =
    Reach-Inv toy toy-CredEqual toy-UpdateKeepsId toy-JsonRoundTrip unclaimed-Inv history

Reach-Extends_example :
    Extends toy
      (enrolled_ids toy unclaimed)
      (enrolled_ids toy (step toy closes (step toy opens unclaimed)))
Reach-Extends_example =
    Reach-Extends toy toy-CredEqual toy-UpdateKeepsId toy-JsonRoundTrip unclaimed-Inv history

register_finish_cases_example :
    Accepts toy
      (env_at 110 2)
      reg_jar
      (42, 5)
      started
      (register_finish toy (env_at 110 2) reg_jar (42, 5) started)
    ⊎ Refused toy started (register_finish toy (env_at 110 2) reg_jar (42, 5) started)
register_finish_cases_example = register_finish_cases toy (env_at 110 2) reg_jar (42, 5) started

register_start_cases_example :
    ((b : AuthState toy) × (ccr : ℕ) × (register_start toy
          (env_at 100 1)
          no_cookies
          code_body
          unclaimed
        ≡ (b, ok (toy.add_cookie no_cookies (build_cookie reg_cookie (hex32 (1 ∷ []))), ccr)))
      × Started toy (env_at 100 1) no_cookies code_body unclaimed b)
    ⊎ ((s : Map ℕ) × (e : Reject) × (register_start toy
            (env_at 100 1)
            no_cookies
            code_body
            unclaimed
          ≡ (record unclaimed { sessions = s }, err e))
        × Shrinks unclaimed.sessions s)
register_start_cases_example =
    register_start_cases toy (env_at 100 1) no_cookies code_body unclaimed

-- A bootstrap that was started before anybody was enrolled and is finished after.
abbrev banked : AuthState toy
banked = record claimed {
  reg = (token_of 1, record { state = 42; mode = bootstrap; expires = 400 }) ∷ [];
}

register_finish-claimed_example :
    (b : AuthState toy) × (e : Reject) × (register_finish toy (env_at 120 3) reg_jar (42, 6) banked
      ≡ (b, err e))
    × (b.store ≡ banked.store)
    × (b.disk.json ≡ banked.disk.json)
    × Shrinks banked.sessions b.sessions
register_finish-claimed_example =
    register_finish-claimed toy (env_at 120 3) reg_jar (42, 6) banked refl
      λ s. ground (arith, s.carried)
