-- ===== src/Auth/Persist/Files/Crash.antt =====
-- auth.rs, `persist`: a save that no other interrupts, stopped after any of its calls.
use vm_vitals.Base.{
  ℕ, zero, suc, ◌≡◌, ◌≢◌, refl, ap, ◌⊎◌, inl, inr, some, String, Text, take, Result, ok,
}
use vm_vitals.Auth.State.{Fault, no_fault, at_open, at_write, at_sync, at_rename}
use vm_vitals.Auth.Persist.Files.{
  Files, view, open_private, write_file, rename, Saving, opens, ended, save_step, save_alone,
}
use vm_vitals.Auth.Persist.Files.Alone.{
  Apart, Opened, open_private-Opened, view-open, view-write, renamed, view-rename,
}

-- The text under the final name is the old one and no success is reported, or it is the whole of the
-- new one and success is reported.
abbrev pub IsWhole : Text → Files → Files × Saving → Type 0
IsWhole json f s =
    (((view s.0).json ≡ (view f).json) × (s.1 ≢ ended (ok tt)))
    ⊎ (((view s.0).json ≡ some json) × (s.1 ≡ ended (ok tt)))

save_step-ended :
    (fault : Fault) (json : Text) (r : Result (Unit {0}) String) (f : Files)
    → save_step fault json (ended r) f ≡ (f, ended r)
unfolding save_step
save_step-ended no_fault json r f = refl
save_step-ended at_open json r f = refl
save_step-ended (at_write n) json r f = refl
save_step-ended at_sync json r f = refl
save_step-ended at_rename json r f = refl

save_alone-ended :
    (fault : Fault) (json : Text) (r : Result (Unit {0}) String) (f : Files) (n : ℕ)
    → save_alone fault json (ended r) f n ≡ (f, ended r)
unfolding save_alone
save_alone-ended fault json r f zero = refl
save_alone-ended fault json r f (suc n) =
    rw (save_step-ended fault json r f) (save_alone-ended fault json r f n)

module _ (json : Text) (f : Files) (apart : Apart f) where
  abbrev opened : Opened f (open_private f).0 (open_private f).1
  opened = open_private-Opened f apart

  -- After the open, and after a write of any part of the text, auth.json is as it was.
  json_opened : (view (open_private f).0).json ≡ (view f).json
  json_opened = ap (λ d. d.json) (view-open f (open_private f).0 (open_private f).1 opened)

  json_written :
      (t : Text) → (view (write_file (open_private f).1 t (open_private f).0)).json ≡ (view f).json
  json_written t = ap (λ d. d.json) (view-write f (open_private f).0 (open_private f).1 opened t)

  IsWhole-renamed :
      (x : Files × Result (Unit {0}) String) (g : Files) (n : ℕ)
      → x ≡ (g, ok tt)
      → (view g).json ≡ some json
      → IsWhole json f (save_alone no_fault json (ended x.1) x.0 n)
  IsWhole-renamed x g n e v = rw (e, save_alone-ended no_fault json (ok tt) g n) (inr (v, refl))

  -- Stopped after any number of its calls, whichever of them fails, a save that no other interrupts
  -- leaves under auth.json either the text that was there, and has not reported success, or the whole
  -- of the new text, and has. The two names are assumed to stand for different files.
  pub save_alone-IsWhole :
      (fault : Fault) (n : ℕ) → IsWhole json f (save_alone fault json opens f n)
  unfolding save_alone save_step
  save_alone-IsWhole fault zero = inl (refl, λ e. cc)
  save_alone-IsWhole at_open (suc n) =
      rw (save_alone-ended at_open json _ f n) (inl (refl, λ e. cc))
  save_alone-IsWhole no_fault (suc zero) = inl (json_opened, λ e. cc)
  save_alone-IsWhole no_fault (suc (suc zero)) = inl (json_written json, λ e. cc)
  save_alone-IsWhole no_fault (suc (suc (suc zero))) = inl (json_written json, λ e. cc)
  save_alone-IsWhole no_fault (suc (suc (suc (suc n)))) =
      let (g, i) = open_private f in
      IsWhole-renamed (rename (write_file i json g)) _ n (renamed f g i opened json)
        (ap (λ d. d.json) (view-rename f g i opened json))
  save_alone-IsWhole (at_write k) (suc zero) = inl (json_opened, λ e. cc)
  save_alone-IsWhole (at_write k) (suc (suc n)) =
      rw (save_alone-ended (at_write k) json _ _ n) (inl (json_written (take k json), λ e. cc))
  save_alone-IsWhole at_sync (suc zero) = inl (json_opened, λ e. cc)
  save_alone-IsWhole at_sync (suc (suc zero)) = inl (json_written json, λ e. cc)
  save_alone-IsWhole at_sync (suc (suc (suc n))) =
      rw (save_alone-ended at_sync json _ _ n) (inl (json_written json, λ e. cc))
  save_alone-IsWhole at_rename (suc zero) = inl (json_opened, λ e. cc)
  save_alone-IsWhole at_rename (suc (suc zero)) = inl (json_written json, λ e. cc)
  save_alone-IsWhole at_rename (suc (suc (suc zero))) = inl (json_written json, λ e. cc)
  save_alone-IsWhole at_rename (suc (suc (suc (suc n)))) =
      rw (save_alone-ended at_rename json _ _ n) (inl (json_written json, λ e. cc))
