-- ===== src/Tests/Interleaved.antt =====
-- Registrations at once.
use vm_vitals.Base.{
  as_bytes, trim, encode_char, ℕ, ◌≤◌, ◌≡◌, refl, ◌⊎◌, true, String, List, [], ◌∷◌, Option, some,
  arith, Text, ok, err, insert, remove, retain, get, text_eq,
}
use vm_vitals.Base.Hex.{hex32}
use vm_vitals.Base.Http.{Status, Reject}
use vm_vitals.Auth.State.{AuthState, Env, bootstrap, add_device, at_sync}
use vm_vitals.Auth.Session.{session_cookie, session_valid, new_session}
use vm_vitals.Auth.Session.Valid.{SignedIn}
use vm_vitals.Auth.Persist.{load_store, persist, replace_file}
use vm_vitals.Auth.Register.{register_start, enrol, admin_exists, not_saved}
use vm_vitals.Auth.Run.Invariant.{AllDistinct, ids}
use vm_vitals.Auth.Concurrent.{
  Place, arrived, verified, pushed, saved, answered, advance, System, turn, turns, Reach, here,
  next, arrives, moves, serves,
}
use vm_vitals.Auth.Concurrent.Counts.{successes}
use vm_vitals.Auth.Concurrent.Counts.Closed.{success-closes_bootstrap}
use vm_vitals.Auth.Concurrent.Unique.{Reach-Unique}
use vm_vitals.Auth.Concurrent.Claim.{Unclaimed}
use vm_vitals.Auth.Concurrent.Claim.Closed.{Reach-Unclaimed}
use vm_vitals.Auth.Register.Begin.{CarriesCode}
use vm_vitals.Auth.Run.{Op, step, starts_registration}
use vm_vitals.Auth.Concurrent.Lost.{turns-lost, turns-popped}
use vm_vitals.Tests.Toy.{
  toy, toy-CredEqual, toy-UpdateKeepsId, toy-JsonRoundTrip, env_at, no_cookies, unclaimed,
  with_cookie, token_of, encode,
}
use vm_vitals.Tests.Accounts.{reg_jar, started, claimed}

turns_reach : (ns : List ℕ) (s t : System toy) → Reach toy s t → Reach toy s (turns toy ns t)
unfolding turns
turns_reach [] s t r = r
turns_reach (n ∷ ns) s t r = turns_reach ns s (turn toy n t) (next r (moves n refl))

abbrev first : Place toy
first = arrived (env_at 110 2) reg_jar (42, 5)

abbrev quiet : System toy
quiet = record { state = started; requests = [] }

-- The first request runs to its end while a second one waits.
abbrev busy : System toy
busy = record { state = started; requests = first ∷ first ∷ [] }

quiet_busy : Reach toy quiet busy
quiet_busy =
    next (next here (arrives (env_at 110 2) reg_jar (42, 5) refl))
      (arrives (env_at 110 2) reg_jar (42, 5) refl)

abbrev first_turns : List ℕ
first_turns = 0 ∷ 0 ∷ 0 ∷ 0 ∷ 0 ∷ 0 ∷ 0 ∷ 0 ∷ []

abbrev first_done : System toy
unfolding turns
first_done = turns toy first_turns busy

told : 1 ≤ successes toy first_done.requests
unfolding turns first_done enrol persist get text_eq remove insert retain hex32 encode new_session
told = omega arith

first_done_reach : Reach toy quiet first_done
unfolding first_done
first_done_reach = turns_reach first_turns quiet busy quiet_busy

-- The second request takes its turn.
second_turn : Reach toy first_done (turn toy 1 first_done)
second_turn = next here (moves 1 refl)

success-closes_bootstrap_example :
    ((env : Env) (jar : String → Option Text) (pk : ℕ × ℕ)
      → advance toy (verified env jar bootstrap pk) (turn toy 1 first_done).state
        ≡ ((turn toy 1 first_done).state, answered (err admin_exists)))
    × ((env : Env) (jar : String → Option Text) (body : Option (Option Text))
        → SignedIn toy (env.clock 0) jar (turn toy 1 first_done).state.sessions
          ⊎ ((b : AuthState toy) × (x : Reject) × (register_start toy env jar body
                  (turn toy 1 first_done).state
                ≡ (b, err x))))
success-closes_bootstrap_example =
    success-closes_bootstrap toy toy-UpdateKeepsId started first_done (turn toy 1 first_done)
      first_done_reach told second_turn

Reach-Unique_example : AllDistinct (ids toy first_done.state.store.passkeys)
Reach-Unique_example =
    Reach-Unique toy toy-CredEqual toy-UpdateKeepsId quiet first_done first_done_reach tt

-- Two devices of the signed-in administrator: 6 is pushed, 8 is not.
abbrev session_browser : String → Option Text
session_browser = with_cookie session_cookie (token_of 2)

abbrev one_pushed : AuthState toy
one_pushed = record claimed { store = record { user_id = some 7; passkeys = (5, 0) ∷ (6, 0) ∷ [] } }

abbrev both_pushed : AuthState toy
both_pushed = record claimed {
  store = record { user_id = some 7; passkeys = (5, 0) ∷ (6, 0) ∷ (8, 0) ∷ [] };
}

pushes_8 : enrol toy 120 session_browser add_device (8, 0) one_pushed ≡ (both_pushed, ok tt)
unfolding enrol session_valid get text_eq
pushes_8 = refl

texts :
    (encode (some 7, (5, 0) ∷ (6, 0) ∷ []) ≡ some (1 ∷ 7 ∷ 5 ∷ 0 ∷ 6 ∷ 0 ∷ []))
    × (encode (some 7, (5, 0) ∷ (6, 0) ∷ (8, 0) ∷ []) ≡ some (1 ∷ 7 ∷ 5 ∷ 0 ∷ 6 ∷ 0 ∷ 8 ∷ 0 ∷ []))
unfolding encode
texts = (refl, refl)

turns-lost_example :
    (d : AuthState toy) × (j : String → Option Text) × (turns toy
        (0 ∷ 1 ∷ 1 ∷ 1 ∷ 0 ∷ 1 ∷ 1 ∷ 1 ∷ [])
        (record {
          state = one_pushed;
          requests =
              pushed (env_at 120 3) session_browser add_device
              ∷ verified (env_at 120 4) session_browser add_device (8, 0)
              ∷ [];
        })
      ≡ record {
        state = d;
        requests =
            saved (env_at 120 3) session_browser add_device ∷ answered (ok (j, Status.ok)) ∷ [];
      })
    × (d.store.passkeys ≡ (5, 0) ∷ (6, 0) ∷ (8, 0) ∷ [])
    × (load_store toy true d.disk.json ≡ ok one_pushed.store)
turns-lost_example =
    turns-lost toy toy-JsonRoundTrip (env_at 120 3) (env_at 120 4) session_browser session_browser
      add_device add_device (8, 0) one_pushed both_pushed (1 ∷ 7 ∷ 5 ∷ 0 ∷ 6 ∷ 0 ∷ [])
      (1 ∷ 7 ∷ 5 ∷ 0 ∷ 6 ∷ 0 ∷ 8 ∷ 0 ∷ []) texts.0 pushes_8 texts.1 refl refl

-- The request whose save fails at `sync_all`.
abbrev failing : Env
failing = record (env_at 120 3) { fault = at_sync }

turns-popped_example :
    (b : AuthState toy) × (j : String → Option Text) × (turns toy
        (0 ∷ 0 ∷ 0 ∷ 1 ∷ 1 ∷ 1 ∷ 1 ∷ 1 ∷ [])
        (record {
          state = both_pushed;
          requests =
              pushed failing session_browser add_device
              ∷ pushed (env_at 120 4) session_browser add_device
              ∷ [];
        })
      ≡ record {
        state = b;
        requests = answered (err not_saved) ∷ answered (ok (j, Status.ok)) ∷ [];
      })
    × (b.store.passkeys ≡ (5, 0) ∷ (6, 0) ∷ [])
    × (load_store toy true b.disk.json ≡ ok one_pushed.store)
unfolding replace_file
turns-popped_example =
    turns-popped toy toy-JsonRoundTrip failing (env_at 120 4) session_browser session_browser
      add_device add_device ((5, 0) ∷ []) (6, 0) (8, 0) both_pushed
      (record { json = claimed.disk.json; tmp = some (1 ∷ 7 ∷ 5 ∷ 0 ∷ 6 ∷ 0 ∷ 8 ∷ 0 ∷ []) })
      "sync_all" (1 ∷ 7 ∷ 5 ∷ 0 ∷ 6 ∷ 0 ∷ 8 ∷ 0 ∷ []) (1 ∷ 7 ∷ 5 ∷ 0 ∷ 6 ∷ 0 ∷ []) refl texts.1 refl
      texts.0 refl

-- A guess at the code of a server that nobody has claimed, beside a finish without a ceremony.
abbrev guess : Op toy
guess = starts_registration (env_at 100 1) no_cookies (some (some (66 ∷ [])))

abbrev guessed : System toy
guessed = record { state = step toy guess unclaimed; requests = [] }

abbrev guesses :
    Reach toy
      (record { state = unclaimed; requests = [] })
      (turn toy 0 (record guessed { requests = first ∷ [] }))
guesses =
    next (next (next here (serves guess refl refl)) (arrives (env_at 110 2) reg_jar (42, 5) refl))
      (moves 0 refl)

nobody : Unclaimed toy (65 ∷ []) unclaimed
nobody = record { passkeys = refl; bootstrap = refl; reg = refl; auth = refl; sessions = refl }

wrong : ¬ CarriesCode toy (some (some (66 ∷ []))) (65 ∷ [])
unfolding as_bytes trim encode_char
wrong e = ground (arith, e)

Reach-Unclaimed_example :
    Unclaimed toy (65 ∷ []) (turn toy 0 (record guessed { requests = first ∷ [] })).state
Reach-Unclaimed_example =
    Reach-Unclaimed toy (65 ∷ []) unclaimed (turn toy 0 (record guessed { requests = first ∷ [] }))
      guesses (tt, wrong) nobody
