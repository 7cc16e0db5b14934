-- ===== src/Auth/Concurrent/Unique.antt =====
-- auth.rs, `register_finish`: no credential is enrolled twice, whatever is in flight.
use vm_vitals.Base.{ℕ, zero, suc, ◌≡◌, refl, ap, ◌≢◌, List, [], ◌∷◌, map, All, drop_last}
use vm_vitals.Auth.Crates.{Crates, CredEqual, UpdateKeepsId}
use vm_vitals.Auth.State.{AuthState}
use vm_vitals.Auth.Run.Invariant.{ids, AllDistinct, AllDistinct-push, any-ids}
use vm_vitals.Auth.Run.Preserve.{map-push}
use vm_vitals.Auth.Run.History.{step-ids}
use vm_vitals.Auth.Concurrent.{
  Place, advance, advance_at, turn, System, Step, Reach, arrives, enters, moves, serves, here, next,
}
use vm_vitals.Auth.Concurrent.Effect.{Effect, keeps, pushes, pops, advance-Effect}

All-drop_last : {A : Type 0} (P : A → Type 0) (xs : List A) → All P xs → All P (drop_last xs)
All-drop_last P [] h = tt
All-drop_last P (x ∷ []) h = tt
All-drop_last P (x ∷ y ∷ xs) h = (h.0, All-drop_last P (y ∷ xs) h.1)

AllDistinct-drop_last : {A : Type 0} (xs : List A) → AllDistinct xs → AllDistinct (drop_last xs)
AllDistinct-drop_last [] h = tt
AllDistinct-drop_last (x ∷ []) h = tt
AllDistinct-drop_last (x ∷ y ∷ xs) h =
    (All-drop_last (λ z. z ≢ x) (y ∷ xs) h.0, AllDistinct-drop_last (y ∷ xs) h.1)

map-drop_last :
    {A B : Type 0} (f : A → B) (xs : List A) → map f (drop_last xs) ≡ drop_last (map f xs)
map-drop_last f [] = refl
map-drop_last f (x ∷ []) = refl
map-drop_last f (x ∷ y ∷ xs) = ap (◌∷◌ (f x)) (map-drop_last f (y ∷ xs))

module _ (c : Crates) where
  open c use {cred_id}

  abbrev Unique : AuthState c → Type 0
  Unique a = AllDistinct (ids c a.store.passkeys)

  Effect-Unique :
      CredEqual c → (p q : Place c) (a b : AuthState c) → Effect c p q a b → Unique a → Unique b
  Effect-Unique eq p q a b (keeps s h) u = rw s u
  Effect-Unique eq p q a b (pushes now jar mode pk may new s hp hq) u =
      rw (s, map-push cred_id a.store.passkeys pk)
        (AllDistinct-push (ids c a.store.passkeys) (cred_id pk) u
          (any-ids c eq a.store.passkeys pk new))
  Effect-Unique eq p q a b (pops s hp hq) u =
      rw (s, map-drop_last cred_id a.store.passkeys)
        (AllDistinct-drop_last (ids c a.store.passkeys) u)

  advance_at-Unique :
      CredEqual c
      → UpdateKeepsId c
      → (n : ℕ) (ps : List (Place c)) (a : AuthState c) → Unique a
      → Unique (advance_at c n ps a).0
  unfolding advance_at
  advance_at-Unique eq upd n [] a u = u
  advance_at-Unique eq upd zero (p ∷ ps) a u =
      Effect-Unique eq p (advance c p a).1 a (advance c p a).0 (advance-Effect c upd p a) u
  advance_at-Unique eq upd (suc n) (p ∷ ps) a u = advance_at-Unique eq upd n ps a u

  Step-Unique :
      CredEqual c
      → UpdateKeepsId c
      → (s t : System c) → Step c s t
      → Unique s.state
      → Unique t.state
  unfolding turn
  Step-Unique eq upd s t (arrives env jar cred e) u = rw e u
  Step-Unique eq upd s t (enters env jar cred e) u = rw e u
  Step-Unique eq upd s t (moves n e) u = rw e (advance_at-Unique eq upd n s.requests s.state u)
  Step-Unique eq upd s t (serves op whole e) u = rw (e, step-ids c upd op s.state whole) u

  -- However the sections of concurrent registrations and sign-ins interleave, with one another and with other
  -- requests, no two enrolled credentials have one id, if none had before.
  pub Reach-Unique :
      CredEqual c
      → UpdateKeepsId c
      → (s t : System c) → Reach c s t
      → AllDistinct (ids c s.state.store.passkeys)
      → AllDistinct (ids c t.state.store.passkeys)
  Reach-Unique eq upd s t here u = u
  Reach-Unique eq upd s t (next {t = m} r h) u =
      Step-Unique eq upd m t h (Reach-Unique eq upd s m r u)
