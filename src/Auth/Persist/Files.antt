-- ===== src/Auth/Persist/Files.antt =====
-- auth.rs, `persist` and `open_private`, on files: a file is a number, the names auth.json and
-- auth.json.tmp stand for one each, and an open file stays the same under any name.
pub mod Alone
pub mod Crash
pub mod Race
use vm_vitals.Base.{
  ℕ, zero, suc, ◌≡◌, ◌==◌, Bool, true, false, if◌then◌else◌, List, [], ◌∷◌, ◌++◌, Option, none,
  some, String, Text, Result, ok, err, length, take,
}
use vm_vitals.Auth.State.{Disk, Fault, no_fault, at_open, at_write, at_sync, at_rename}

-- `used` counts the files that there have been.
pub record Files : Type 0 where
  pub text : ℕ → Text
  pub used : ℕ
  pub json : Option ℕ
  pub tmp : Option ℕ

unfoldable pub put : ℕ → Text → (ℕ → Text) → ℕ → Text
put i t text j = if j == i then t else text j

abbrev read : (ℕ → Text) → Option ℕ → Option Text
read text none = none
read text (some i) = some (text i)

-- What the two names hold.
unfoldable pub view : Files → Disk
view f = record { json = read f.text f.json; tmp = read f.text f.tmp }

-- Write, create, truncate: the file of the name, if there is one, loses its text.
unfoldable pub open_private : Files → Files × ℕ
unfolding put
open_private f = elim f.tmp [
  | none ↦ (record f { text = put f.used [] f.text; used = suc f.used; tmp = some f.used }, f.used)
  | some i ↦ (record f { text = put i [] f.text }, i)
]

abbrev pub drop : ℕ → Text → Text
drop zero t = t
drop (suc n) [] = []
drop (suc n) (x ∷ t) = drop n t

-- A write to a file that was just opened begins at its start; what was behind it stays.
unfoldable pub write_over : Text → Text → Text
write_over new old = new ++ drop (length new) old

unfoldable pub write_file : ℕ → Text → Files → Files
unfolding put write_over
write_file i t f = record f { text = put i (write_over t (f.text i)) f.text }

-- `rename`: without a file of the temporary name it fails.
unfoldable pub rename : Files → Files × Result (Unit {0}) String
rename f = elim f.tmp [
  | none ↦ (f, err "replacing auth.json")
  | some i ↦ (record f { json = some i; tmp = none }, ok tt)
]

-- Where a save stands, with the file that it has open.
pub data Saving : Type 0 where
  opens : Saving
  writes syncs : ℕ → Saving
  renames : Saving
  ended : Result (Unit {0}) String → Saving

-- The next call of a save.
unfoldable pub save_step : Fault → Text → Saving → Files → Files × Saving
unfolding open_private write_file rename
save_step at_open json opens f = (f, ended (err "creating auth.json.tmp"))
save_step _ json opens f = let (g, i) = open_private f in (g, writes i)
save_step (at_write n) json (writes i) f = (write_file i (take n json) f, ended (err "write_all"))
save_step _ json (writes i) f = (write_file i json f, syncs i)
save_step at_sync json (syncs i) f = (f, ended (err "sync_all"))
save_step _ json (syncs i) f = (f, renames)
save_step at_rename json renames f = (f, ended (err "replacing auth.json"))
save_step _ json renames f = let (g, r) = rename f in (g, ended r)
save_step _ json (ended r) f = (f, ended r)

-- A save that no other interrupts.
unfoldable pub save_alone : Fault → Text → Saving → Files → ℕ → Files × Saving
unfolding save_step
save_alone fault json p f zero = (f, p)
save_alone fault json p f (suc n) =
    let (g, q) = save_step fault json p f in save_alone fault json q g n

-- Two saves without a failing call, one of the text `x` and one of the text `y`; `true` is a turn of
-- the first.
unfoldable pub save_both :
    Text → Text → List Bool → Files × Saving × Saving → Files × Saving × Saving
unfolding save_step
save_both x y [] s = s
save_both x y (true ∷ ts) (f, p, q) =
    let (g, p') = save_step no_fault x p f in save_both x y ts (g, p', q)
save_both x y (false ∷ ts) (f, p, q) =
    let (g, q') = save_step no_fault y q f in save_both x y ts (g, p, q')
