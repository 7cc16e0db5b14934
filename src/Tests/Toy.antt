-- ===== src/Tests/Toy.antt =====
-- A small implementation of what the daemon takes from its crates.
use text.Mathlib.Text.{◌==◌ as str_eq}
use text.Mathlib.TextPositions.{eq_refl}
use vm_vitals.Base.{
  ℕ, ◌+◌, ◌≡◌, refl, ap, String, List, [], ◌∷◌, Option, none, some, arith, ◌==◌, if◌then◌else◌,
  Text, ok, err,
}
use vm_vitals.Auth.Crates.{Crates, CredEqual, UpdateKeepsId, JsonRoundTrip, JarKeeps}
use vm_vitals.Auth.State.{AuthState, Env, no_fault}

flatten : List (ℕ × ℕ) → Text
flatten [] = []
flatten ((i, n) ∷ ps) = i ∷ n ∷ flatten ps

unflatten : Text → List (ℕ × ℕ)
unflatten [] = []
unflatten (i ∷ []) = []
unflatten (i ∷ n ∷ t) = (i, n) ∷ unflatten t

unflatten-flatten : (ps : List (ℕ × ℕ)) → unflatten (flatten ps) ≡ ps
unfolding flatten unflatten
unflatten-flatten [] = refl
unflatten-flatten ((i, n) ∷ ps) = ap (◌∷◌ (i, n)) (unflatten-flatten ps)

unfoldable pub encode : Option ℕ × List (ℕ × ℕ) → Option Text
unfolding flatten
encode (none, ps) = some (0 ∷ flatten ps)
encode (some u, ps) = some (1 ∷ u ∷ flatten ps)

decode_id : ℕ → Text → Option (Option ℕ × List (ℕ × ℕ))
unfolding unflatten
decode_id tag [] = if tag == 0 then some (none, []) else none
decode_id tag (u ∷ t) =
    if tag == 0 then some (none, unflatten (u ∷ t)) else some (some u, unflatten t)

unfoldable pub decode : Text → Option (Option ℕ × List (ℕ × ℕ))
unfolding decode_id
decode [] = none
decode (tag ∷ t) = decode_id tag t

-- A passkey is its id and its counter; a challenge is a number that the answer has to repeat.
abbrev pub toy : Crates
toy = record {
  Passkey = ℕ × ℕ;
  CredentialId = ℕ;
  Registration = ℕ;
  Authentication = ℕ;
  Creation = ℕ;
  Request = ℕ;
  RegisterCredential = ℕ × ℕ;
  LoginCredential = ℕ × ℕ;
  AuthenticationResult = ℕ;
  Jar = String → Option Text;
  cred_id = λ p. p.0;
  cred_eq = λ a b. a == b;
  start_passkey_registration = λ seed uid exclude. ok (seed, seed);
  finish_passkey_registration = λ cred state. if cred.0 == state then ok (cred.1, 0) else err "bad";
  start_passkey_authentication = λ seed pks. ok (seed, seed);
  finish_passkey_authentication = λ cred state. if cred.0 == state then ok cred.1 else err "bad";
  update_credential = λ r p. (p.0, r);
  to_string_pretty = encode;
  from_str = decode;
  get_cookie = λ j name. j name;
  add_cookie = λ j k name. if str_eq k.name name then some k.value else j name;
  remove_cookie = λ j k name. if str_eq k.name name then none else j name;
}

pub toy-CredEqual : CredEqual toy
toy-CredEqual a b = ground arith

pub toy-UpdateKeepsId : UpdateKeepsId toy
toy-UpdateKeepsId r p = refl

decode-none : (ps : List (ℕ × ℕ)) → decode (0 ∷ flatten ps) ≡ some (none, ps)
unfolding decode flatten
decode-none [] = refl
decode-none ((i, n) ∷ ps) = ap (λ l. some (none, (i, n) ∷ l)) (unflatten-flatten ps)

decode-some : (u : ℕ) (ps : List (ℕ × ℕ)) → decode (1 ∷ u ∷ flatten ps) ≡ some (some u, ps)
unfolding decode
decode-some u ps = ap (λ l. some (some u, l)) (unflatten-flatten ps)

pub toy-JsonRoundTrip : JsonRoundTrip toy
unfolding encode
toy-JsonRoundTrip (none, ps) t h =
    let e : 0 ∷ flatten ps ≡ t = ground arith in rw (← e) (decode-none ps)
toy-JsonRoundTrip (some u, ps) t h =
    let e : 1 ∷ u ∷ flatten ps ≡ t = ground arith in rw (← e) (decode-some u ps)

pub toy-JarKeeps : JarKeeps toy
toy-JarKeeps j k = rw eq_refl

-- A clock that stands, and the draws of a request.
abbrev pub env_at : ℕ → ℕ → Env
env_at now draw = record {
  clock = λ k. now;
  random = draw ∷ [];
  uuid = 7;
  seed = 42;
  fault = no_fault;
}

abbrev pub no_cookies : String → Option Text
no_cookies name = none

-- Nobody is enrolled; the code is "A".
abbrev pub unclaimed : AuthState toy
unclaimed = record {
  store = record { user_id = none; passkeys = [] };
  disk = record { json = none; tmp = none };
  reg = [];
  auth = [];
  sessions = [];
  bootstrap = some (65 ∷ []);
}

-- A browser that holds one cookie.
abbrev pub with_cookie : String → Text → String → Option Text
with_cookie name value asked = if str_eq name asked then some value else none

-- The token that `hex32` makes of one byte below ten.
abbrev pub token_of : ℕ → Text
token_of n = 48 ∷ (48 + n) ∷ []
