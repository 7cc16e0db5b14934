-- ===== src/Web/Router/Headers.antt =====
-- web.rs, `security_headers`: the headers of every response.
use vm_vitals.Base.{
  ℕ, ◌≡◌, refl, ◌∙◌, inl, inr, true, false, List, [], ◌∷◌, Option, none, some, codes, arith, All,
  Bool-cases, Text, text_eq, text_eq_iff, Map, get, insert, or_option, get-insert,
}
use vm_vitals.Base.Http.{Status}
use vm_vitals.Auth.Crates.{Crates}
use vm_vitals.Auth.State.{AuthState}
use vm_vitals.Web.Gate.{Request}
use vm_vitals.Web.Router.{
  Route, Response, Handlers, hardening, insert_headers, security_headers, dispatch, router,
}

-- No two of the headers have one name.
abbrev NamesDiffer : List (Text × Text) → Type 0
NamesDiffer [] = Unit
NamesDiffer (h ∷ hs) = All (λ j. text_eq j.0 h.0 ≡ false) hs × NamesDiffer hs

get_absent :
    (name : Text) (hs : List (Text × Text))
    → All (λ h. text_eq h.0 name ≡ false) hs
    → get name hs ≡ none
unfolding get
get_absent name [] h = refl
get_absent name ((k, v) ∷ hs) h = rw h.0 (get_absent name hs h.1)

absent_eq :
    (k name : Text) (hs : List (Text × Text))
    → text_eq k name ≡ true
    → All (λ h. text_eq h.0 k ≡ false) hs
    → get name hs ≡ none
absent_eq k name hs e h =
    let same : k ≡ name = ground (arith, text_eq_iff k name) in rw (← same) (get_absent k hs h)

insert_headers-get :
    (name : Text) (hs : List (Text × Text)) (m : Map Text)
    → NamesDiffer hs
    → get name (insert_headers hs m) ≡ or_option (get name hs) (get name m)
unfolding insert_headers
insert_headers-get name [] m d = unfold get in refl
insert_headers-get name ((k, v) ∷ hs) m d =
    insert_headers-get name hs (insert k v m) d.1 ∙ elim (Bool-cases (text_eq k name)) [
      | inl e ↦ rw (absent_eq k name hs e d.0, get-insert k name v m, e) (unfold get in rw e)
      | inr e ↦ rw (get-insert k name v m, e) (unfold get in rw e)
    ]

hardening-NamesDiffer : NamesDiffer hardening
unfolding text_eq
hardening-NamesDiffer = (
  (refl, (refl, (refl, (refl, (refl, tt))))),
  (
    (refl, (refl, (refl, (refl, tt)))),
    ((refl, (refl, (refl, tt))), ((refl, (refl, tt)), ((refl, tt), (tt, tt)))),
  ),
)

-- What every response promises a browser: no content from other hosts, no guess at the type of a body,
-- no frame around a page, no address sent to other sites, and no copy in a cache, least of all one that
-- is shared between cookies.
abbrev pub IsHardened : Map Text → Type 0
IsHardened m =
    (get (codes "content-security-policy") m
      ≡ some (
          codes
            "default-src 'none'; script-src 'unsafe-inline'; style-src 'unsafe-inline'; img-src 'self' data:; connect-src 'self'; base-uri 'none'; form-action 'self'; frame-ancestors 'none'"))
    × (get (codes "x-content-type-options") m ≡ some (codes "nosniff"))
    × (get (codes "x-frame-options") m ≡ some (codes "DENY"))
    × (get (codes "referrer-policy") m ≡ some (codes "no-referrer"))
    × (get (codes "cache-control") m ≡ some (codes "no-store, private"))
    × (get (codes "vary") m ≡ some (codes "Cookie"))

-- A name of none of the six headers.
abbrev pub IsOther : Text → Type 0
IsOther name =
    All (λ k. text_eq k name ≡ false)
      (codes "content-security-policy"
        ∷ codes "x-content-type-options"
        ∷ codes "x-frame-options"
        ∷ codes "referrer-policy"
        ∷ codes "cache-control"
        ∷ codes "vary"
        ∷ [])

insert_headers-set :
    (name v : Text) (m : Map Text)
    → get name hardening ≡ some v
    → get name (insert_headers hardening m) ≡ some v
insert_headers-set name v m e =
    insert_headers-get name hardening m hardening-NamesDiffer ∙ rw e refl

insert_headers-IsHardened : (m : Map Text) → IsHardened (insert_headers hardening m)
unfolding get text_eq
insert_headers-IsHardened m = (
  insert_headers-set _ _ m refl,
  insert_headers-set _ _ m refl,
  insert_headers-set _ _ m refl,
  insert_headers-set _ _ m refl,
  insert_headers-set _ _ m refl,
  insert_headers-set _ _ m refl,
)

insert_headers-other :
    (name : Text) (m : Map Text) → IsOther name → get name (insert_headers hardening m) ≡ get name m
insert_headers-other name m other =
    insert_headers-get name hardening m hardening-NamesDiffer
    ∙ rw (get_absent name hardening other) refl

module _ (c : Crates) (of_status : Status → Response) (missing : Response) where
  -- Every response carries the six headers, with the policy that is written out, nosniff, DENY,
  -- no-referrer, no-store and Cookie for their values, whatever the request matched and whatever a
  -- handler, the gate or axum answered; any other header, and the status, are as it was answered.
  pub router-headers :
      (handlers : Handlers c) (now : ℕ) (req : Request c.Jar) (token : Option Text)
      (matched : Option Route) (auth : Option (AuthState c)) (name : Text)
      → IsOther name
      → let inner = (dispatch c of_status missing handlers now req token matched auth).1 in
        let sent = (router c of_status missing handlers now req token matched auth).1 in
        IsHardened sent.headers
        × (get name sent.headers ≡ get name inner.headers)
        × (sent.status ≡ inner.status)
  unfolding router security_headers
  router-headers handlers now req token matched auth name other =
      let inner = (dispatch c of_status missing handlers now req token matched auth).1 in
      (insert_headers-IsHardened inner.headers, insert_headers-other name inner.headers other, refl)
