-- ===== src/Tests/Saves.antt =====
-- Saves of auth.json, on files.
use vm_vitals.Base.{◌≡◌, true, false, [], ◌∷◌, none, some, arith, ok, err}
use vm_vitals.Auth.State.{at_write, no_fault}
use vm_vitals.Auth.Persist.{replace_file}
use vm_vitals.Auth.Persist.Files.{Files, view, opens, ended, save_alone, save_both}
use vm_vitals.Auth.Persist.Files.Alone.{Apart, save_alone-replace_file}
use vm_vitals.Auth.Persist.Files.Crash.{IsWhole, save_alone-IsWhole}
use vm_vitals.Auth.Persist.Files.Race.{save_both-empties}

-- auth.json is there, and no temporary file.
abbrev on_disk : Files
on_disk = record { text = λ i. 123 ∷ 125 ∷ []; used = 1; json = some 0; tmp = none }

on_disk-Apart : Apart on_disk
on_disk-Apart = record {
  json_used = λ i h. ground arith;
  tmp_used = λ i h. absurd (ground arith);
  different = λ i h k. absurd (ground arith);
}

save_alone-replace_file_example :
    (view (save_alone (at_write 1) (91 ∷ 93 ∷ []) opens on_disk 4).0
      ≡ (replace_file (at_write 1) (91 ∷ 93 ∷ []) (view on_disk)).0)
    × ((save_alone (at_write 1) (91 ∷ 93 ∷ []) opens on_disk 4).1
        ≡ ended (replace_file (at_write 1) (91 ∷ 93 ∷ []) (view on_disk)).1)
    × Apart (save_alone (at_write 1) (91 ∷ 93 ∷ []) opens on_disk 4).0
save_alone-replace_file_example =
    save_alone-replace_file (at_write 1) (91 ∷ 93 ∷ []) on_disk on_disk-Apart

-- Stopped before the rename.
save_alone-IsWhole_example :
    IsWhole (91 ∷ 93 ∷ []) on_disk (save_alone no_fault (91 ∷ 93 ∷ []) opens on_disk 3)
save_alone-IsWhole_example = save_alone-IsWhole (91 ∷ 93 ∷ []) on_disk on_disk-Apart no_fault 3

save_both-empties_example :
    let (g, p, q) =
      save_both
        (91 ∷ 93 ∷ [])
        (65 ∷ [])
        (true ∷ true ∷ true ∷ false ∷ true ∷ [])
        (on_disk, opens, opens) in
    (p ≡ ended (ok tt))
    × ((view g).json ≡ some [])
    × (let (h, p', q') =
          save_both (91 ∷ 93 ∷ []) (65 ∷ []) (false ∷ false ∷ false ∷ []) (g, p, q) in
        (q' ≡ ended (err "replacing auth.json")) × ((view h).json ≡ some (65 ∷ [])))
save_both-empties_example = save_both-empties (91 ∷ 93 ∷ []) (65 ∷ []) on_disk
