-- ===== src/Auth/Session/Issue.antt =====
-- auth.rs, `new_session`: the map of sessions after it.
use vm_vitals.Base.{
  ℕ, suc, ◌+◌, ◌≤◌, ◌<◌, ◌≡◌, refl, ap, inl, inr, [], ◌∷◌, none, some, arith, Option-cases, Text,
  Map, get, insert, Distinct, get-insert_self, insert-Distinct, remove-Distinct, length,
  length-remove-le,
}
use vm_vitals.Base.Hex.{hex32}
use vm_vitals.Auth.Crates.{Crates}
use vm_vitals.Auth.State.{AuthState, Env, session_ttl, max_sessions}
use vm_vitals.Auth.Ceremony.{min_by_key}
use vm_vitals.Auth.Ceremony.Bounds.{min_by_key-length-remove, min_by_key-none}
use vm_vitals.Auth.Session.{retain_live, drop_oldest, new_session}

length-retain_live-le : (clock : ℕ → ℕ) (m : Map ℕ) → length (retain_live clock m) ≤ length m
unfolding retain_live
length-retain_live-le clock [] = omega arith
length-retain_live-le clock ((k, e) ∷ m) =
    ground (arith, length-retain_live-le (λ i. clock (suc i)) m)

get-retain_live_absent :
    (clock : ℕ → ℕ) (k : Text) (m : Map ℕ) → get k m ≡ none → get k (retain_live clock m) ≡ none
unfolding retain_live get
get-retain_live_absent clock k [] h = refl
get-retain_live_absent clock k ((j, e) ∷ m) h =
    ground (arith, get-retain_live_absent (λ i. clock (suc i)) k m)

retain_live-Distinct : (clock : ℕ → ℕ) (m : Map ℕ) → Distinct m → Distinct (retain_live clock m)
unfolding retain_live
retain_live-Distinct clock [] d = tt
retain_live-Distinct clock ((j, e) ∷ m) d = ground (
  arith,
  retain_live-Distinct (λ i. clock (suc i)) m d.1,
  get-retain_live_absent (λ i. clock (suc i)) j m d.0,
)

drop_oldest-Distinct : (m : Map ℕ) → Distinct m → Distinct (drop_oldest m)
unfolding drop_oldest
drop_oldest-Distinct m d = elim (Option-cases (min_by_key (λ e. e) m)) [
  | inl q ↦ rw (q, drop_oldest) (ground arith)
  | inr ((k, e), q) ↦ rw (q, drop_oldest) (ground (arith, remove-Distinct k m d))
]

-- One entry goes, which is enough for a map that was not over the cap.
length-drop_oldest-lt :
    (m : Map ℕ) → length m ≤ max_sessions → length (drop_oldest m) < max_sessions
unfolding drop_oldest
length-drop_oldest-lt m h = elim (Option-cases (min_by_key (λ e. e) m)) [
  | inl q ↦ let e = ap length (min_by_key-none (λ e. e) m q) in rw (q, drop_oldest) (ground arith)
  | inr ((k, e), q) ↦
      rw (q, drop_oldest) (ground (arith, min_by_key-length-remove (λ e. e) m k e q))
]

module _ (c : Crates) (env : Env) (a : AuthState c) where
  -- The token that a new session gets, and its expiry.
  abbrev pub issued_token : Text
  issued_token = hex32 env.random

  abbrev pub issued_expiry : ℕ
  issued_expiry = env.clock (length a.sessions) + session_ttl

  -- A map of sessions within `MAX_SESSIONS` stays within it, and the new session is in it for
  -- `SESSION_TTL` from the last reading of the clock.
  pub new_session_bounds :
      length a.sessions ≤ max_sessions
      → (length (new_session c env a).0.sessions ≤ max_sessions)
        × (get issued_token (new_session c env a).0.sessions ≡ some issued_expiry)
        × ((new_session c env a).1.value ≡ issued_token)
  unfolding new_session insert
  new_session_bounds h =
      let live = retain_live env.clock a.sessions in
      (
        omega (
          arith,
          length-remove-le issued_token (drop_oldest live),
          length-drop_oldest-lt live (omega (arith, length-retain_live-le env.clock a.sessions)),
        ),
        get-insert_self issued_token issued_expiry (drop_oldest live),
        refl,
      )

  pub new_session-Distinct : Distinct a.sessions → Distinct (new_session c env a).0.sessions
  unfolding new_session
  new_session-Distinct d =
      insert-Distinct issued_token issued_expiry _
        (drop_oldest-Distinct _ (retain_live-Distinct env.clock a.sessions d))

  -- Nothing but the sessions changes.
  pub new_session-frame : (s : Map ℕ) × ((new_session c env a).0 ≡ record a { sessions = s })
  unfolding new_session
  new_session-frame = ((new_session c env a).0.sessions, refl)
