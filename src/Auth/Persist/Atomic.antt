-- ===== src/Auth/Persist/Atomic.antt =====
-- auth.rs, `persist` and the load of `AuthState::new`: what a write that may fail leaves behind.
use vm_vitals.Base.{
  ◌≡◌, ◌≢◌, none, refl, ◌⊎◌, inl, inr, Bool, true, false, [], Option, String, some, arith,
  Option-cases, Text, Result, ok, err,
}
use vm_vitals.Auth.Crates.{Crates, JsonRoundTrip}
use vm_vitals.Auth.State.{
  AuthState, Store, Disk, Fault, no_fault, at_open, at_write, at_sync, at_rename,
}
use vm_vitals.Auth.Persist.{replace_file, persist, parse_store, load_store}

-- What a write comes to: the whole text under the final name, or an error and the old file, and then
-- there was a fault.
abbrev Replaces : Fault → Text → Disk → Disk × Result (Unit {0}) String → Type 0
Replaces f json d r =
    ((r.1 ≡ ok tt) × (r.0.json ≡ some json))
    ⊎ ((e : String) × (r.1 ≡ err e) × (r.0.json ≡ d.json) × (f ≢ no_fault))

replace_file_cases :
    (f : Fault) (json : Text) (d : Disk) → Replaces f json d (replace_file f json d)
unfolding replace_file
replace_file_cases no_fault json d = inl (refl, refl)
replace_file_cases at_open json d = inr ("creating auth.json.tmp", refl, refl, λ e. cc)
replace_file_cases (at_write n) json d = inr ("write_all", refl, refl, λ e. cc)
replace_file_cases at_sync json d = inr ("sync_all", refl, refl, λ e. cc)
replace_file_cases at_rename json d = inr ("replacing auth.json", refl, refl, λ e. cc)

module _ (c : Crates) where
  open c use {to_string_pretty, from_str}

  -- A `persist` that no other overlaps changes the disk alone; it returns success with the whole of
  -- the credentials under `auth.json`, or an error with `auth.json` as it was, and then the text could
  -- not be made or a call failed.
  pub persist-atomic :
      (f : Fault) (a : AuthState c)
      → (d : Disk) × ((persist c f a).0 ≡ record a { disk = d })
        × (((json : Text) × ((persist c f a).1 ≡ ok tt)
              × (to_string_pretty (a.store.user_id, a.store.passkeys) ≡ some json)
              × (d.json ≡ some json))
            ⊎ ((e : String) × ((persist c f a).1 ≡ err e)
                × (d.json ≡ a.disk.json)
                × ((to_string_pretty (a.store.user_id, a.store.passkeys) ≡ none) ⊎ (f ≢ no_fault))))
  unfolding persist
  persist-atomic f a = elim (Option-cases (to_string_pretty (a.store.user_id, a.store.passkeys))) [
    | inl e ↦ (a.disk, rw (e, persist), inr ("serializing the store", rw (e, persist), refl, inl e))
    | inr (json, e) ↦ elim (replace_file_cases f json a.disk) [
      | inl (r, j) ↦
          ((replace_file f json a.disk).0, rw (e, persist), inl (json, rw (e, persist) r, e, j))
      | inr (x, r, j, w) ↦
          ((replace_file f json a.disk).0, rw (e, persist), inr (x, rw (e, persist) r, j, inr w))
    ]
  ]

  -- What was saved is what the next start loads.
  pub load_store-saved :
      JsonRoundTrip c
      → (s : Store c) (json : Text) → to_string_pretty (s.user_id, s.passkeys) ≡ some json
      → load_store c true (some json) ≡ ok s
  unfolding load_store parse_store
  load_store-saved round s json e = rw (round (s.user_id, s.passkeys) json e)

  -- What a start finds: without an auth.json nobody is enrolled, and otherwise the file can be read and
  -- its text is that of the credentials.
  abbrev pub Holds : Bool → Option Text → Store c → Type 0
  Holds readable none s = (s.user_id ≡ none) × (s.passkeys ≡ [])
  Holds readable (some raw) s = (readable ≡ true) × (from_str raw ≡ some (s.user_id, s.passkeys))

  pub load_store-Holds :
      (readable : Bool) (j : Option Text) (s : Store c)
      → load_store c readable j ≡ ok s
      → Holds readable j s
  unfolding load_store parse_store
  load_store-Holds readable none s h =
      let same : record { user_id = none; passkeys = [] } ≡ s = ground (arith, h) in
      rw (← same) (refl, refl)
  load_store-Holds false (some raw) s h = absurd (ground (arith, h))
  load_store-Holds true (some raw) s h = elim (Option-cases (from_str raw)) [
    | inl n ↦ let h' = rw n at h in absurd (ground (arith, h'))
    | inr ((uid, pks), e) ↦
        let h' = rw e at h in
        let same : record { user_id = uid; passkeys = pks } ≡ s = ground (arith, h') in
        (refl, rw (← same) e)
  ]
