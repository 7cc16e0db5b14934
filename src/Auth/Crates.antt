-- ===== src/Auth/Crates.antt =====
-- What auth.rs calls and does not implement: webauthn-rs, serde_json, and the cookie jar of
-- axum-extra. The state of a ceremony and the challenges are opaque to the program.
use vm_vitals.Base.{ℕ, ◌≡◌, ◌↔◌, String, Bool, true, List, Option, some, Text, Result}

-- `SameSite` of the cookie crate.
pub data SameSite : Type 0 where
  strict lax unrestricted : SameSite

-- The attributes that the program sets on a cookie; none has a `Domain` or a `Max-Age`.
pub record Cookie : Type 0 where
  pub name : String
  pub value : Text
  pub path : String
  pub http_only : Bool
  pub secure : Bool
  pub same_site : SameSite

-- `seed` stands for the randomness that webauthn-rs draws.
pub record Crates : Type 1 where
  pub Passkey : Type 0
  pub CredentialId : Type 0
  pub Registration : Type 0
  pub Authentication : Type 0
  pub Creation : Type 0
  pub Request : Type 0
  pub RegisterCredential : Type 0
  pub LoginCredential : Type 0
  pub AuthenticationResult : Type 0
  pub Jar : Type 0
  pub cred_id : Passkey → CredentialId
  pub cred_eq : CredentialId → CredentialId → Bool
  pub start_passkey_registration :
      ℕ → ℕ → Option (List CredentialId) → Result (Creation × Registration) String
  pub finish_passkey_registration : RegisterCredential → Registration → Result Passkey String
  pub start_passkey_authentication : ℕ → List Passkey → Result (Request × Authentication) String
  pub finish_passkey_authentication :
      LoginCredential → Authentication → Result AuthenticationResult String
  pub update_credential : AuthenticationResult → Passkey → Passkey
  pub to_string_pretty : Option ℕ × List Passkey → Option Text
  pub from_str : Text → Option (Option ℕ × List Passkey)
  pub get_cookie : Jar → String → Option Text
  pub add_cookie : Jar → Cookie → Jar
  pub remove_cookie : Jar → Cookie → Jar

-- Documented behaviour that some theorems rely on, each as a hypothesis of its own.
module _ (c : Crates) where
  open c use {
    Passkey, Jar, cred_id, cred_eq, update_credential, to_string_pretty, from_str, get_cookie,
    add_cookie, CredentialId, AuthenticationResult,
  }

  -- `==` on credential ids is equality.
  abbrev pub CredEqual : Type 0
  CredEqual = (a b : CredentialId) → (cred_eq a b ≡ true) ↔ (a ≡ b)

  -- An update advances a counter and keeps the credential's id.
  abbrev pub UpdateKeepsId : Type 0
  UpdateKeepsId =
      (r : AuthenticationResult) (p : Passkey) → cred_id (update_credential r p) ≡ cred_id p

  -- What serde_json wrote it reads back.
  abbrev pub JsonRoundTrip : Type 0
  JsonRoundTrip =
      (s : Option ℕ × List Passkey) (t : Text) → to_string_pretty s ≡ some t → from_str t ≡ some s

  -- A cookie that was added is the one that the jar has under its name.
  abbrev pub JarKeeps : Type 0
  JarKeeps = (j : Jar) (k : Cookie) → get_cookie (add_cookie j k) k.name ≡ some k.value
