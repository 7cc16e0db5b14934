-- ===== src/Auth/Session.antt =====
-- auth.rs: sessions and cookies.
pub mod Valid
pub mod Issue
use vm_vitals.Base.{
  ℕ, zero, suc, ◌+◌, ◌≡◌, Bool, true, false, not, ◌||◌, String, List, [], ◌∷◌, Option, none, some,
  ltb, leb, if◌then◌else◌, Text, Map, get, insert, remove, retain, length, is_empty, unwrap_or,
}
use vm_vitals.Base.Hex.{hex32}
use vm_vitals.Auth.Crates.{Crates, Cookie, SameSite}
use vm_vitals.Auth.State.{AuthState, Store, Env, session_ttl, max_sessions}
use vm_vitals.Auth.Ceremony.{min_by_key}

abbrev pub session_cookie : String
session_cookie = "__Host-v_session"

abbrev pub reg_cookie : String
reg_cookie = "__Host-v_reg"

abbrev pub auth_cookie : String
auth_cookie = "__Host-v_auth"

unfoldable pub build_cookie : String → Text → Cookie
build_cookie name value = record {
  name = name;
  value = value;
  path = "/";
  http_only = true;
  secure = true;
  same_site = SameSite.lax;
}

unfoldable pub clear_cookie : String → Cookie
clear_cookie name = record {
  name = name;
  value = [];
  path = "/";
  http_only = true;
  secure = true;
  same_site = SameSite.lax;
}

-- `s.retain(|_, exp| *exp > SystemTime::now())`, which reads the clock once for every entry.
unfoldable pub retain_live : (ℕ → ℕ) → Map ℕ → Map ℕ
retain_live clock [] = []
retain_live clock ((k, exp) ∷ m) =
    let rest = retain_live (λ i. clock (suc i)) m in
    if ltb (clock 0) exp then (k, exp) ∷ rest else rest

-- At the cap the soonest to expire goes, and only that one.
unfoldable pub drop_oldest : Map ℕ → Map ℕ
drop_oldest m =
    if ltb (length m) max_sessions
    then m
    else elim (min_by_key (λ e. e) m) [ none ↦ m | some (k, e) ↦ remove k m ]

module _ (c : Crates) where
  open c use {Jar, get_cookie}

  -- A poisoned lock (`none`) counts as registered.
  unfoldable pub registered : Option (Store c) → Bool
  registered none = true
  registered (some s) = not (is_empty s.passkeys)

  check_session : ℕ → Text → Option ℕ → AuthState c → AuthState c × Bool
  check_session now tok none a = (a, false)
  check_session now tok (some exp) a =
      if ltb now exp then (a, true) else (record a { sessions = remove tok a.sessions }, false)

  -- An expired session is removed when it is presented.
  unfoldable pub session_valid : ℕ → Jar → AuthState c → AuthState c × Bool
  unfolding check_session
  session_valid now jar a = elim (get_cookie jar session_cookie) [
    | none ↦ (a, false)
    | some tok ↦ check_session now tok (get tok a.sessions) a
  ]

  -- The clock readings are those of `retain`, then the one that dates the new session.
  unfoldable pub new_session : Env → AuthState c → AuthState c × Cookie
  unfolding retain_live drop_oldest build_cookie
  new_session env a =
      let token = hex32 env.random in
      let kept = drop_oldest (retain_live env.clock a.sessions) in
      let exp = env.clock (length a.sessions) + session_ttl in
      (record a { sessions = insert token exp kept }, build_cookie session_cookie token)

  -- `none` is a poisoned lock.
  unfoldable pub bootstrap_token : Option (Option Text) → Option Text
  bootstrap_token none = none
  bootstrap_token (some t) = t

  -- One reading of the clock for the three maps.
  unfoldable pub sweep : ℕ → AuthState c → AuthState c
  sweep now a = record a {
    reg = retain (λ p. ltb now p.expires) a.reg;
    auth = retain (λ p. ltb now p.expires) a.auth;
    sessions = retain (λ exp. ltb now exp) a.sessions;
  }
