-- ===== src/Auth/Persist/Files/Race.antt =====
-- auth.rs, `persist`: two saves at once, on files. No lock is held while a save writes, and both use
-- the one temporary name.
use vm_vitals.Base.{
  ℕ, ◌≡◌, refl, ap, ◌∙◌, inl, inr, true, false, [], ◌∷◌, some, Option-cases, Text, ok, err,
}
use vm_vitals.Auth.Persist.Files.{
  Files, put, view, open_private, write_over, write_file, rename, opens, ended, save_step,
  save_both,
}
use vm_vitals.Auth.Persist.Files.Alone.{put_same, write_over-nil}

put_written :
    (i : ℕ) (t : Text) (text text' : ℕ → Text) → put i (write_over t (put i [] text i)) text' i ≡ t
put_written i t text text' =
    put_same i (write_over t (put i [] text i)) text'
    ∙ ap (write_over t) (put_same i [] text)
    ∙ write_over-nil t

-- The files once the first save is synced.
abbrev synced : ℕ → Text → (ℕ → Text) → ℕ → Text
synced i x text = let t = put i [] text in put i (write_over x (t i)) t

-- The second save opens the temporary file between the first save's `sync_all` and its `rename`: it
-- empties the file that the first is about to give the name auth.json. The first is told of success,
-- and auth.json is empty until the second writes; that save writes all of its text there, and is told
-- that it failed.
pub save_both-empties :
    (x y : Text) (f : Files)
    → let (g, p, q) = save_both x y (true ∷ true ∷ true ∷ false ∷ true ∷ []) (f, opens, opens) in
      (p ≡ ended (ok tt))
      × ((view g).json ≡ some [])
      × (let (h, p', q') = save_both x y (false ∷ false ∷ false ∷ []) (g, p, q) in
          (q' ≡ ended (err "replacing auth.json")) × ((view h).json ≡ some y))
unfolding save_both save_step open_private rename write_file view
save_both-empties x y f = elim (Option-cases f.tmp) [
  | inl e ↦
      let t = synced f.used x f.text in
      rw e (
        refl,
        ap some (put_same f.used [] t),
        (refl, ap some (put_written f.used y t (put f.used [] t))),
      )
  | inr (i, e) ↦
      let t = synced i x f.text in
      rw e (refl, ap some (put_same i [] t), (refl, ap some (put_written i y t (put i [] t))))
]
