-- ===== src/Config/Token.antt =====
-- config.rs, `load`: the token that takes effect.
use mathlib.Core.List.{reverse, reverse-reverse, reverse-append}
use vm_vitals.Base.{
  ◌≤◌, ◌≡◌, ap, ◌∙◌, sym, refl, ◌⊎◌, inl, inr, Bool, false, String, [], ◌∷◌, ◌++◌, Option, none,
  some, arith, Bool-cases, Option-cases, is_empty, is_empty-cases, or_option, Text, trim,
  trim_start, is_whitespace, as_bytes, length, Result, ok,
}
use vm_vitals.Config.{
  Raw, Config, min_token_len, non_blank, check_token, web_token, load, load-web_token,
}

-- A text that begins with white space.
unfoldable pub starts_white : Text → Bool
starts_white [] = false
starts_white (c ∷ s) = is_whitespace c

-- No white space at either end.
abbrev pub IsTrimmed : Text → Type 0
IsTrimmed t = (starts_white t ≡ false) × (starts_white (reverse t) ≡ false)

trim_start-starts_white : (s : Text) → starts_white (trim_start s) ≡ false
unfolding trim_start starts_white
trim_start-starts_white [] = refl
trim_start-starts_white (c ∷ s) = elim (Bool-cases (is_whitespace c)) [
  | inl e ↦ rw e (trim_start-starts_white s)
  | inr e ↦ rw e e
]

-- What `trim_start` leaves is the end of the text.
trim_start-suffix : (s : Text) → (p : Text) × (s ≡ p ++ trim_start s)
unfolding trim_start
trim_start-suffix [] = ([], refl)
trim_start-suffix (c ∷ s) =
    let (p, e) = trim_start-suffix s in
    elim (Bool-cases (is_whitespace c)) [
      | inl w ↦ (c ∷ p, rw w (ap (◌∷◌ c) e))
      | inr w ↦ ([], rw w refl)
    ]

starts_white-append : (s t : Text) → starts_white (s ++ t) ≡ false → starts_white s ≡ false
unfolding starts_white
starts_white-append [] t h = refl
starts_white-append (c ∷ s) t h = h

trim-IsTrimmed : (s : Text) → IsTrimmed (trim s)
unfolding trim
trim-IsTrimmed s =
    let u = trim_start s in
    let v = trim_start (reverse u) in
    let (p, e) = trim_start-suffix (reverse u) in
    let front : u ≡ reverse v ++ reverse p =
      sym (reverse-reverse u) ∙ ap reverse e ∙ reverse-append p v in
    (
      starts_white-append (reverse v) (reverse p) (rw (← front) (trim_start-starts_white s)),
      rw (reverse-reverse v) (trim_start-starts_white (reverse u)),
    )

check_token-some :
    (o : Option Text) (t : Text)
    → check_token o ≡ ok (some t)
    → (o ≡ some t) × (min_token_len ≤ length (as_bytes t))
unfolding check_token
check_token-some none t h = absurd (ground arith)
check_token-some (some s) t h = ground arith

-- The value that a source gives, and none if there is none or it is blank.
abbrev pub Gives : Option Text → Text → Type 0
Gives o t = (s : Text) × (o ≡ some s) × (trim s ≡ t)

abbrev pub GivesNone : Option Text → Type 0
GivesNone none = Unit
GivesNone (some s) = trim s ≡ []

non_blank-some :
    (o : Option Text) (t : Text)
    → non_blank o ≡ some t
    → (is_empty t ≡ false) × IsTrimmed t × Gives o t
unfolding non_blank
non_blank-some none t h = absurd (ground (arith, h))
non_blank-some (some s) t h = elim (Bool-cases (is_empty (trim s))) [
  | inl e ↦ let h' = rw e at h in absurd (ground (arith, h'))
  | inr e ↦
      let h' = rw e at h in
      let same : trim s ≡ t = ground (arith, h') in
      rw (← same) (e, trim-IsTrimmed s, (s, refl, refl))
]

non_blank-none : (o : Option Text) → non_blank o ≡ none → GivesNone o
unfolding non_blank
non_blank-none none h = tt
non_blank-none (some s) h = elim (Bool-cases (is_empty (trim s))) [
  | inl e ↦ elim (is_empty-cases (trim s)) [ inl n ↦ n | inr n ↦ absurd (ground (arith, e, n)) ]
  | inr e ↦ let h' = rw e at h in absurd (ground (arith, h'))
]

module _ {Addr : Type 0} (parse_addr : Text → Result Addr String) where
  -- A token that takes effect has at least 16 bytes and no white space at either end, so that it is not
  -- blank, and it is the value of the environment without the white space around it, or that of the file
  -- where the environment has none or a blank one.
  pub load-token :
      (from_env : Option Text) (raw : Raw) (cfg : Config Addr) (t : Text)
      → load parse_addr from_env (ok raw) ≡ ok cfg
      → cfg.token ≡ some t
      → (min_token_len ≤ length (as_bytes t))
        × (is_empty t ≡ false)
        × IsTrimmed t
        × (Gives from_env t ⊎ (GivesNone from_env × Gives raw.web.token t))
  unfolding web_token
  load-token from_env raw cfg t h e =
      let a = non_blank from_env in
      let b = non_blank raw.web.token in
      let checked : check_token (or_option a b) ≡ ok (some t) =
        load-web_token parse_addr from_env raw cfg h ∙ ap ok e in
      let (chosen, long) = check_token-some (or_option a b) t checked in
      elim (Option-cases (non_blank from_env)) [
        | inl n ↦
            let file : non_blank raw.web.token ≡ some t = rw n at chosen in
            let (full, ends, given) = non_blank-some raw.web.token t file in
            (long, full, ends, inr (non_blank-none from_env n, given))
        | inr (s, n) ↦
            let env : non_blank from_env ≡ some t = n ∙ (rw n at chosen) in
            let (full, ends, given) = non_blank-some from_env t env in (long, full, ends, inl given)
      ]
