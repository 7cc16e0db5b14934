-- ===== src/Tests/Sessions.antt =====
-- Sign-in, sessions and pending ceremonies.
use vm_vitals.Base.{
  List, insert, remove, retain, ◌≢◌, false, true, text_eq, text_eq_iff, ℕ, ◌≤◌, ◌≡◌, refl, ◌⊎◌,
  String, [], ◌∷◌, Option, some, arith, Text, Map, get, length, ok, err,
}
use vm_vitals.Base.Http.{Reject}
use vm_vitals.Auth.State.{AuthState, max_ceremonies}
use vm_vitals.Auth.Ceremony.{insert_capped, evict}
use vm_vitals.Auth.Ceremony.Ends.{Runs, evict-ends}
use vm_vitals.Auth.Ceremony.Bounds.{insert_capped_bounds}
use vm_vitals.Auth.Session.{auth_cookie, session_cookie}
use vm_vitals.Auth.Register.{ceremony_expired}
use vm_vitals.Auth.Login.{login_start, login_finish}
use vm_vitals.Auth.Login.Outcome.{SignsIn, signed_in, login_finish_cases}
use vm_vitals.Base.Hex.{hex32}
use vm_vitals.Auth.Run.{Op, starts_login, finishes_login, sweeps}
use vm_vitals.Auth.Run.Pending.{serve_all}
use vm_vitals.Auth.Run.Once.{login_finish_once, login_round_trip}
use vm_vitals.Tests.Toy.{toy, toy-JarKeeps, env_at, no_cookies, with_cookie, token_of}
use vm_vitals.Tests.Accounts.{claimed}

-- The browser that holds the cookie of the sign-in "01".
abbrev auth_jar : String → Option Text
auth_jar = with_cookie auth_cookie (token_of 1)

-- A sign-in is under way.
abbrev signing_in : AuthState toy
signing_in = record claimed { auth = (token_of 1, record { state = 42; expires = 400 }) ∷ [] }

login_finish_cases_example :
    ((b : AuthState toy) × (login_finish toy (env_at 110 3) auth_jar (42, 9) signing_in
        ≡ signed_in toy (env_at 110 3) auth_jar b)
      × SignsIn toy (env_at 110 3) auth_jar (42, 9) signing_in b)
    ⊎ ((e : Reject) × (login_finish toy (env_at 110 3) auth_jar (42, 9) signing_in
          ≡ (record signing_in { auth = remove (token_of 1) signing_in.auth }, err e)))
login_finish_cases_example = login_finish_cases toy (env_at 110 3) auth_jar (42, 9) signing_in

login_finish_once_example :
    login_finish toy
      (env_at 120 4)
      auth_jar
      (42, 9)
      (login_finish toy (env_at 110 3) auth_jar (42, 9) signing_in).0
    ≡ ((login_finish toy (env_at 110 3) auth_jar (42, 9) signing_in).0, err ceremony_expired)
login_finish_once_example =
    login_finish_once toy (env_at 110 3) (env_at 120 4) auth_jar (42, 9) (42, 9) signing_in
      (token_of 1) refl

other_key : hex32 (5 ∷ []) ≢ hex32 (1 ∷ [])
unfolding hex32 text_eq
other_key e = let same : false ≡ true = (text_eq_iff (hex32 (5 ∷ [])) (hex32 (1 ∷ []))).1 e in cc

-- Another sign-in starts, a sweep runs, and a finish comes without a ceremony.
abbrev between : List (Op toy)
between =
    starts_login (env_at 150 5) no_cookies
    ∷ sweeps 200
    ∷ finishes_login (env_at 210 6) no_cookies (42, 9)
    ∷ []

login_round_trip_example :
    (jar' : String → Option Text) × (b : AuthState toy) × ((login_start toy
        (env_at 100 1)
        no_cookies
        claimed).1
      ≡ ok (jar', 42))
    × (login_finish toy
          (env_at 300 3)
          jar'
          (42, 9)
          (serve_all toy between (login_start toy (env_at 100 1) no_cookies claimed).0)
        ≡ signed_in toy (env_at 300 3) jar' b)
unfolding login_start insert_capped insert remove retain hex32
login_round_trip_example =
    login_round_trip toy toy-JarKeeps (env_at 100 1) (env_at 300 3) no_cookies (42, 9) claimed 42 42
      9 between tt refl refl refl (omega arith)
      ((omega arith, other_key, omega arith), (omega arith, (λ e. cc, tt)))

abbrev session_jar : String → Option Text
session_jar = with_cookie session_cookie (token_of 2)

-- A map of expiry times with one entry.
abbrev pending_map : Map ℕ
pending_map = (token_of 1, 400) ∷ []

insert_capped_bounds_example :
    (length (insert_capped (λ e. e) 100 (token_of 2) 500 pending_map) ≤ max_ceremonies)
    × (get (token_of 2) (insert_capped (λ e. e) 100 (token_of 2) 500 pending_map) ≡ some 500)
insert_capped_bounds_example = insert_capped_bounds (λ e. e) 100 (token_of 2) 500 pending_map

-- Two entries where there is room for one.
abbrev crowded : Map ℕ
crowded = (token_of 1, 400) ∷ (token_of 2, 300) ∷ []

evict-ends_example :
    Runs (λ e. e) 2 crowded (evict (λ e. e) 2 2 crowded)
    × (evict (λ e. e) 2 5 crowded ≡ evict (λ e. e) 2 2 crowded)
evict-ends_example = evict-ends (λ e. e) 2 5 crowded (omega arith)
