-- ===== src/Auth/Run/Invariant.antt =====
-- The invariant of the authentication state, and the lists of credential ids.
use vm_vitals.Base.{
  ◌≤◌, ◌≡◌, refl, sym, ◌≢◌, true, false, List, [], ◌∷◌, ◌++◌, map, none, some, arith, Text, get,
  Distinct, length, All, All-push, any, is_empty, ok,
}
use vm_vitals.Auth.Crates.{Crates, CredEqual, UpdateKeepsId}
use vm_vitals.Auth.State.{AuthState, Store, add_device, PendingReg, max_ceremonies, max_sessions}
use vm_vitals.Auth.Persist.{load_store}

module _ {A : Type 0} where
  -- No element stands twice.
  abbrev pub AllDistinct : List A → Type 0
  AllDistinct [] = Unit
  AllDistinct (x ∷ xs) = All (λ y. y ≢ x) xs × AllDistinct xs

  pub AllDistinct-push :
      (xs : List A) (x : A) → AllDistinct xs → All (λ y. y ≢ x) xs → AllDistinct (xs ++ x ∷ [])
  AllDistinct-push [] x d f = (tt, tt)
  AllDistinct-push (y ∷ xs) x d f =
      (All-push (λ z. z ≢ y) xs x d.0 (λ e. f.0 (sym e)), AllDistinct-push xs x d.1 f.1)

module _ (c : Crates) where
  open c use {Passkey, cred_id, cred_eq, update_credential, CredentialId, AuthenticationResult}

  abbrev pub ids : List Passkey → List CredentialId
  ids = map cred_id

  pub any-ids :
      CredEqual c
      → (pks : List Passkey) (pk : Passkey)
      → any (λ p. cred_eq (cred_id p) (cred_id pk)) pks ≡ false
      → All (λ i. i ≢ cred_id pk) (ids pks)
  any-ids eq [] pk h = tt
  any-ids eq (p ∷ pks) pk h =
      (λ e. ground (arith, (eq (cred_id p) (cred_id pk)).1 e), any-ids eq pks pk (ground arith))

  pub ids-update :
      UpdateKeepsId c
      → (r : AuthenticationResult) (pks : List Passkey)
      → ids (map (update_credential r) pks) ≡ ids pks
  ids-update upd r [] = refl
  ids-update upd r (p ∷ pks) = cc (upd r p, ids-update upd r pks)

  -- `unclaimed`: with no credential there is no session and no sign-in under way. `claimed`: with
  -- one the enrolment code is gone, and every registration under way was started by a signed-in
  -- request. `durable`: `auth.json` can be loaded, and holds the credentials of the memory.
  pub record Inv (a : AuthState c) : Type 0 where
    pub unclaimed : a.store.passkeys ≡ [] → (a.sessions ≡ []) × (a.auth ≡ [])
    pub code_burnt : is_empty a.store.passkeys ≡ false → a.bootstrap ≡ none
    pub no_banked :
        is_empty a.store.passkeys ≡ false
        → (k : Text) (p : PendingReg c) → get k a.reg ≡ some p
        → p.mode ≡ add_device
    pub reg_distinct : Distinct a.reg
    pub auth_distinct : Distinct a.auth
    pub sessions_distinct : Distinct a.sessions
    pub reg_bound : length a.reg ≤ max_ceremonies
    pub auth_bound : length a.auth ≤ max_ceremonies
    pub sessions_bound : length a.sessions ≤ max_sessions
    pub ids_distinct : AllDistinct (ids a.store.passkeys)
    pub durable :
        (s : Store c) × (load_store c true a.disk.json ≡ ok s)
        × (ids s.passkeys ≡ ids a.store.passkeys)
