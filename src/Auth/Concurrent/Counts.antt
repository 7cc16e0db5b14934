-- ===== src/Auth/Concurrent/Counts.antt =====
-- auth.rs, `register_finish`: how many credentials are enrolled while requests are in flight.
pub mod Closed
use vm_vitals.Base.{
  ℕ, zero, suc, ◌+◌, ◌≤◌, ◌≡◌, refl, ap, sym, ◌∙◌, ◌⊎◌, inl, inr, false, List, [], ◌∷◌, ◌++◌, arith,
  length, length-append, map, drop_last, is_empty, is_empty-cases, Option, Text, ok, err,
}
use vm_vitals.Base.Http.{Reject}
use vm_vitals.Auth.Crates.{Crates, UpdateKeepsId}
use vm_vitals.Auth.State.{AuthState, Env, RegMode, bootstrap, add_device}
use vm_vitals.Auth.Register.{register_start, enrol, admin_exists}
use vm_vitals.Auth.Register.Begin.{MayStart, register_start_cases}
use vm_vitals.Auth.Session.Valid.{SignedIn}
use vm_vitals.Auth.Run.{step}
use vm_vitals.Auth.Run.Invariant.{ids}
use vm_vitals.Auth.Run.History.{step-ids}
use vm_vitals.Auth.Login.Sections.{entered}
use vm_vitals.Auth.Concurrent.{
  Place, arrived, verified, pushed, serialized, unsaved, saved, cleared, closed, answered, advance,
  advance_at, turn, System, Step, Reach, arrives, enters, login, moves, serves, here, next,
}
use vm_vitals.Auth.Concurrent.Effect.{held, Effect, keeps, pushes, pops, advance-Effect}

length-drop_last :
    {A : Type 0} (xs : List A) → 1 ≤ length xs → length (drop_last xs) + 1 ≡ length xs
length-drop_last [] h = absurd (omega (arith, h))
length-drop_last (x ∷ []) h = omega arith
length-drop_last (x ∷ y ∷ xs) h = omega (arith, length-drop_last (y ∷ xs) (omega arith))

length-map : {A B : Type 0} (f : A → B) (xs : List A) → length (map f xs) ≡ length xs
length-map f [] = refl
length-map f (x ∷ xs) = ap suc (length-map f xs)

module _ (c : Crates) where
  open c use {Passkey, Jar, cred_id}

  abbrev pub enrolled : AuthState c → ℕ
  enrolled a = length a.store.passkeys

  -- The credentials that requests hold, and the requests that were told of success.
  abbrev pub total_held : List (Place c) → ℕ
  total_held [] = 0
  total_held (p ∷ ps) = held c p + total_held ps

  abbrev succeeded : Place c → ℕ
  succeeded (answered (ok r)) = 1
  succeeded p = 0

  abbrev pub successes : List (Place c) → ℕ
  successes [] = 0
  successes (p ∷ ps) = succeeded p + successes ps

  ids-enrolled :
      (a b : AuthState c)
      → ids c b.store.passkeys ≡ ids c a.store.passkeys
      → enrolled b ≡ enrolled a
  ids-enrolled a b h =
      sym (length-map cred_id b.store.passkeys) ∙ ap length h ∙ length-map cred_id a.store.passkeys

  Effect-counts :
      (p q : Place c) (a b : AuthState c)
      → Effect c p q a b
      → held c p ≤ enrolled a
      → enrolled b + held c p ≡ enrolled a + held c q
  Effect-counts p q a b (keeps s h) le = omega (arith, ids-enrolled a b s, h)
  Effect-counts p q a b (pushes now jar mode pk may new s hp hq) le =
      rw s (omega (arith, length-append a.store.passkeys (pk ∷ []), hp, hq))
  Effect-counts p q a b (pops s hp hq) le =
      rw s (omega (arith, length-drop_last a.store.passkeys (omega arith), hp, hq))

  advance_at-counts :
      UpdateKeepsId c
      → (n : ℕ) (ps : List (Place c)) (a : AuthState c) → total_held ps ≤ enrolled a
      → enrolled (advance_at c n ps a).0 + total_held ps
        ≡ enrolled a + total_held (advance_at c n ps a).1
  unfolding advance_at
  advance_at-counts upd n [] a le = refl
  advance_at-counts upd zero (p ∷ ps) a le =
      let e =
        Effect-counts p (advance c p a).1 a (advance c p a).0 (advance-Effect c upd p a)
          (omega arith) in
      omega arith
  advance_at-counts upd (suc n) (p ∷ ps) a le =
      let e = advance_at-counts upd n ps a (omega arith) in omega arith

  total_held-push :
      (ps : List (Place c)) (q : Place c) → total_held (ps ++ q ∷ []) ≡ total_held ps + held c q
  total_held-push [] q = omega arith
  total_held-push (p ∷ ps) q = omega (arith, total_held-push ps q)

  -- Before any request is in flight `n` credentials are enrolled.
  abbrev pub Counted : ℕ → System c → Type 0
  Counted n s = enrolled s.state ≡ n + total_held s.requests

  Step-Counted : UpdateKeepsId c → (n : ℕ) (s t : System c) → Step c s t → Counted n s → Counted n t
  unfolding turn
  Step-Counted upd n s t (arrives env jar cred e) h =
      rw e (omega (arith, h, total_held-push s.requests (arrived env jar cred)))
  Step-Counted upd n s t (enters env jar cred e) h =
      rw e (omega (arith, h, total_held-push s.requests (login (entered env jar cred))))
  Step-Counted upd n s t (moves k e) h =
      let same = advance_at-counts upd k s.requests s.state (omega arith) in rw e (omega arith)
  Step-Counted upd n s t (serves op whole e) h =
      let same = ids-enrolled s.state (step c op s.state) (step-ids c upd op s.state whole) in
      rw e (omega arith)

  pub Reach-Counted :
      UpdateKeepsId c → (n : ℕ) (s t : System c) → Reach c s t → Counted n s → Counted n t
  Reach-Counted upd n s t here h = h
  Reach-Counted upd n s t (next {t = m} r e) h =
      Step-Counted upd n m t e (Reach-Counted upd n s m r h)

  succeeded-held : (p : Place c) → succeeded p ≤ held c p
  succeeded-held (arrived env jar cred) = omega arith
  succeeded-held (verified env jar mode pk) = omega arith
  succeeded-held (pushed env jar mode) = omega arith
  succeeded-held (serialized env jar mode json) = omega arith
  succeeded-held (unsaved x) = omega arith
  succeeded-held (saved env jar mode) = omega arith
  succeeded-held (cleared env jar) = omega arith
  succeeded-held (closed env jar) = omega arith
  succeeded-held (answered (ok r)) = omega arith
  succeeded-held (answered (err e)) = omega arith
  succeeded-held (login p) = omega arith

  pub successes-total_held : (ps : List (Place c)) → successes ps ≤ total_held ps
  successes-total_held [] = omega arith
  successes-total_held (p ∷ ps) = omega (arith, succeeded-held p, successes-total_held ps)

  advance-succeeded : (p : Place c) (a : AuthState c) → succeeded p ≤ succeeded (advance c p a).1
  unfolding advance
  advance-succeeded (arrived env jar cred) a = omega arith
  advance-succeeded (verified env jar mode pk) a = omega arith
  advance-succeeded (pushed env jar mode) a = omega arith
  advance-succeeded (serialized env jar mode json) a = omega arith
  advance-succeeded (unsaved x) a = omega arith
  advance-succeeded (saved env jar mode) a = omega arith
  advance-succeeded (cleared env jar) a = omega arith
  advance-succeeded (closed env jar) a = omega arith
  advance-succeeded (answered r) a = omega arith
  advance-succeeded (login p) a = omega arith

  advance_at-successes :
      (n : ℕ) (ps : List (Place c)) (a : AuthState c)
      → successes ps ≤ successes (advance_at c n ps a).1
  unfolding advance_at
  advance_at-successes n [] a = omega arith
  advance_at-successes zero (p ∷ ps) a = omega (arith, advance-succeeded p a)
  advance_at-successes (suc n) (p ∷ ps) a = omega (arith, advance_at-successes n ps a)

  successes-push : (ps : List (Place c)) (q : Place c) → successes ps ≤ successes (ps ++ q ∷ [])
  successes-push [] q = omega arith
  successes-push (p ∷ ps) q = omega (arith, successes-push ps q)

  Step-successes : (s t : System c) → Step c s t → successes s.requests ≤ successes t.requests
  unfolding turn
  Step-successes s t (arrives env jar cred e) = rw e (successes-push s.requests _)
  Step-successes s t (enters env jar cred e) = rw e (successes-push s.requests _)
  Step-successes s t (moves n e) = rw e (advance_at-successes n s.requests s.state)
  Step-successes s t (serves op whole e) = rw e (omega arith)

  pub Reach-successes : (s t : System c) → Reach c s t → successes s.requests ≤ successes t.requests
  Reach-successes s t here = omega arith
  Reach-successes s t (next {t = m} r e) =
      omega (arith, Reach-successes s m r, Step-successes m t e)
