-- ===== src/Auth/Persist/Files/Alone.antt =====
-- auth.rs, `persist`: a save that no other interrupts, on files.
use mathlib.Core.List.{append-nil}
use vm_vitals.Base.{
  ℕ, zero, suc, ◌<◌, ◌≡◌, refl, ap, sym, ◌∙◌, inl, inr, ◌≢◌, ◌==◌, [], ◌++◌, Option, none, some,
  Option-cases, Text, length, arith, take, ok, Bool-cases,
}
use vm_vitals.Auth.State.{Disk, Fault, no_fault, at_open, at_write, at_sync, at_rename}
use vm_vitals.Auth.Persist.{replace_file}
use vm_vitals.Auth.Persist.Files.{
  Files, put, read, view, open_private, drop, write_over, write_file, rename, opens, ended,
  save_alone,
}

drop-nil : (n : ℕ) → drop n [] ≡ []
drop-nil zero = refl
drop-nil (suc n) = refl

pub put_same : (i : ℕ) (t : Text) (text : ℕ → Text) → put i t text i ≡ t
unfolding put
put_same i t text = ground arith

pub put_other : (i j : ℕ) (t : Text) (text : ℕ → Text) → j ≢ i → put i t text j ≡ text j
unfolding put
put_other i j t text h = elim (Bool-cases (j == i)) [
  | inl e ↦ absurd (h (ground arith))
  | inr e ↦ rw e refl
]

pub write_over-nil : (t : Text) → write_over t [] ≡ t
unfolding write_over
write_over-nil t = ap (λ l. t ++ l) (drop-nil (length t)) ∙ append-nil t

Disk-ext : (d e : Disk) → d.json ≡ e.json → d.tmp ≡ e.tmp → d ≡ e
Disk-ext d e h k = rw (h, k) refl

-- The names stand for files that there are, and for different ones.
pub record Apart (f : Files) : Type 0 where
  pub json_used : (i : ℕ) → f.json ≡ some i → i < f.used
  pub tmp_used : (i : ℕ) → f.tmp ≡ some i → i < f.used
  pub different : (i : ℕ) → f.json ≡ some i → f.tmp ≢ some i

-- The file behind the temporary name is open and empty, and auth.json is as it was.
pub record Opened (f g : Files) (i : ℕ) : Type 0 where
  empty : g.text i ≡ []
  tmp : g.tmp ≡ some i
  json : g.json ≡ f.json
  kept : (j : ℕ) → f.json ≡ some j → (g.text j ≡ f.text j) × (j ≢ i)
  used : i < g.used
  json_used : (j : ℕ) → f.json ≡ some j → j < g.used

pub open_private-Opened : (f : Files) → Apart f → Opened f (open_private f).0 (open_private f).1
unfolding open_private
open_private-Opened f h = elim (Option-cases f.tmp) [
  | inl e ↦ rw e (record {
    empty = put_same f.used [] f.text;
    tmp = refl;
    json = refl;
    kept = λ j k.
        let ne : j ≢ f.used = λ x. omega (arith, h.json_used j k, x) in
        (put_other f.used j [] f.text ne, ne);
    used = omega arith;
    json_used = λ j k. omega (arith, h.json_used j k);
  })
  | inr (i, e) ↦ rw e (record {
    empty = put_same i [] f.text;
    tmp = refl;
    json = refl;
    kept = λ j k.
        let ne : j ≢ i = λ x. h.different j k (e ∙ ap some (sym x)) in
        (put_other i j [] f.text ne, ne);
    used = h.tmp_used i e;
    json_used = h.json_used;
  })
]

-- What is behind a name that is not written to.
read-put :
    (o : Option ℕ) (i : ℕ) (t : Text) (text : ℕ → Text)
    → ((j : ℕ) → o ≡ some j → j ≢ i)
    → read (put i t text) o ≡ read text o
read-put none i t text h = refl
read-put (some j) i t text h = ap some (put_other i j t text (h j refl))

read-kept :
    (o : Option ℕ) (text text' : ℕ → Text)
    → ((j : ℕ) → o ≡ some j → text' j ≡ text j)
    → read text' o ≡ read text o
read-kept none text text' h = refl
read-kept (some j) text text' h = ap some (h j refl)

module _ (f g : Files) (i : ℕ) (h : Opened f g i) where
  pub view-open : view g ≡ record (view f) { tmp = some [] }
  unfolding view
  view-open =
      Disk-ext _ _
        (ap (read g.text) h.json ∙ read-kept f.json f.text g.text (λ j k. (h.kept j k).0))
        (ap (read g.text) h.tmp ∙ ap some h.empty)

  pub view-write : (t : Text) → view (write_file i t g) ≡ record (view f) { tmp = some t }
  unfolding view write_file
  view-write t =
      Disk-ext _ _
        (read-put g.json i (write_over t (g.text i)) g.text (λ j k. (h.kept j (sym h.json ∙ k)).1)
          ∙ ap (λ d. d.json) view-open)
        (ap (read (put i (write_over t (g.text i)) g.text)) h.tmp
          ∙ ap some (put_same i _ g.text ∙ ap (write_over t) h.empty ∙ write_over-nil t))

  pub renamed :
      (t : Text)
      → rename (write_file i t g) ≡ (record (write_file i t g) { json = some i; tmp = none }, ok tt)
  unfolding rename write_file
  renamed t = rw h.tmp refl

  pub view-rename :
      (t : Text)
      → view (record (write_file i t g) { json = some i; tmp = none })
        ≡ record { json = some t; tmp = none }
  unfolding view write_file
  view-rename t =
      Disk-ext _ _ (ap some (put_same i _ g.text ∙ ap (write_over t) h.empty ∙ write_over-nil t))
        refl

  Opened-Apart : Apart g
  Opened-Apart = record {
    json_used = λ j k. h.json_used j (sym h.json ∙ k);
    tmp_used = λ j k. let same : some j ≡ some i = sym k ∙ h.tmp in ground (arith, h.used);
    different = λ j k k'.
        (h.kept j (sym h.json ∙ k)).1 (let same : some j ≡ some i = sym k' ∙ h.tmp in ground arith);
  }

  Apart-write : (t : Text) → Apart (write_file i t g)
  unfolding write_file
  Apart-write t =
      let a = Opened-Apart in
      record { json_used = a.json_used; tmp_used = a.tmp_used; different = a.different }

  Apart-rename : (t : Text) → Apart (record (write_file i t g) { json = some i; tmp = none })
  unfolding write_file
  Apart-rename t = record {
    json_used = λ j k. ground (arith, h.used);
    tmp_used = λ j k. absurd (ground arith);
    different = λ j k k'. absurd (ground arith);
  }

-- On files, with the two names apart, a save that no other interrupts does what `replace_file` says
-- of what the names hold, whichever of its calls fails, and leaves the names apart.
pub save_alone-replace_file :
    (fault : Fault) (json : Text) (f : Files)
    → Apart f
    → (view (save_alone fault json opens f 4).0 ≡ (replace_file fault json (view f)).0)
      × ((save_alone fault json opens f 4).1 ≡ ended (replace_file fault json (view f)).1)
      × Apart (save_alone fault json opens f 4).0
unfolding save_alone replace_file
save_alone-replace_file no_fault json f h =
    let (g, i) = open_private f in
    let o = open_private-Opened f h in
    rw (renamed f g i o json) (view-rename f g i o json, refl, Apart-rename f g i o json)
save_alone-replace_file at_open json f h = (refl, refl, h)
save_alone-replace_file (at_write n) json f h =
    let (g, i) = open_private f in
    let o = open_private-Opened f h in
    (view-write f g i o (take n json), refl, Apart-write f g i o (take n json))
save_alone-replace_file at_sync json f h =
    let (g, i) = open_private f in
    let o = open_private-Opened f h in (view-write f g i o json, refl, Apart-write f g i o json)
save_alone-replace_file at_rename json f h =
    let (g, i) = open_private f in
    let o = open_private-Opened f h in (view-write f g i o json, refl, Apart-write f g i o json)
