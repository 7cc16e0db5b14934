-- ===== src/Config.antt =====
-- config.rs, `load`: the command line, the file, the token. The TOML decoder and the parser of
-- addresses are external: what they return is an argument.
pub mod Token
use mathlib.Core.Option
use vm_vitals.Base.{
  ℕ, ◌≤◌, ◌≡◌, ap, ◌∙◌, ◌⊎◌, inl, inr, false, ◌||◌, not, String, List, [], ◌∷◌, Option, none, some,
  arith, leb, if◌then◌else◌, Option-cases, is_empty, unwrap_or, or_option, filter_option, Text,
  codes, text_eq, trim, as_bytes, length, Result, ok, err, Result-cases,
}

-- The loop over the arguments after the program's name. An option at the end of the line has no
-- value, and a later option overrides an earlier one.
unfoldable pub config_arg : Option Text → List Text → Option Text
config_arg path [] = path
config_arg path (a ∷ []) =
    if text_eq a (codes "--config") || text_eq a (codes "-c") then none else path
config_arg path (a ∷ b ∷ args) =
    let taken = config_arg (some b) args in
    let skipped = config_arg path (b ∷ args) in
    if text_eq a (codes "--config") || text_eq a (codes "-c") then taken else skipped

unfoldable pub config_path : List Text → Text
unfolding config_arg
config_path args = unwrap_or (config_arg none args) (codes "/etc/vitals/config.toml")

-- The sections of the file as decoded, with `None` for a key that is absent.
pub record WebRaw : Type 0 where
  pub bind : Option Text
  pub token : Option Text
  pub rp_id : Option Text
  pub rp_origin : Option Text
  pub data_dir : Option Text

pub record Raw : Type 0 where
  pub interval_secs : Option ℕ
  pub web : WebRaw
  pub socket : Option Text

abbrev pub default_interval : ℕ
default_interval = 15

abbrev pub default_bind : String
default_bind = "127.0.0.1:9110"

abbrev pub default_data_dir : String
default_data_dir = "/var/lib/vitals"

abbrev pub default_docker_socket : String
default_docker_socket = "/var/run/docker.sock"

abbrev pub min_token_len : ℕ
min_token_len = 16

-- A value trimmed, and no value if nothing is left of it.
unfoldable pub non_blank : Option Text → Option Text
non_blank o = filter_option (λ s. not (is_empty s)) (Option.map trim o)

-- `len` counts bytes.
unfoldable pub check_token : Option Text → Result (Option Text) String
check_token none = ok none
check_token (some t) =
    if leb min_token_len (length (as_bytes t)) then ok (some t) else err "web token is too short"

-- The environment goes before the file.
unfoldable pub web_token : Option Text → Option Text → Result (Option Text) String
unfolding non_blank check_token
web_token from_env from_file = check_token (or_option (non_blank from_env) (non_blank from_file))

-- `Addr` is the type of socket addresses.
pub record Config (Addr : Type 0) : Type 0 where
  pub interval_secs : ℕ
  pub web_bind : Addr
  pub token : Option Text
  pub rp_id : Option Text
  pub rp_origin : Option Text
  pub data_dir : Text
  pub docker_socket : Text

module _ {Addr : Type 0} (parse_addr : Text → Result Addr String) where
  assemble : Raw → Option Text → Result Addr String → Result (Config Addr) String
  assemble raw token (err e) = err e
  assemble raw token (ok addr) = ok (record {
    interval_secs = unwrap_or raw.interval_secs default_interval;
    web_bind = addr;
    token = token;
    rp_id = raw.web.rp_id;
    rp_origin = raw.web.rp_origin;
    data_dir = unwrap_or raw.web.data_dir (codes default_data_dir);
    docker_socket = unwrap_or raw.socket (codes default_docker_socket);
  })

  with_token : Raw → Result (Option Text) String → Result (Config Addr) String
  unfolding assemble
  with_token raw (err e) = err e
  with_token raw (ok token) =
      assemble raw token (parse_addr (unwrap_or raw.web.bind (codes default_bind)))

  -- The configuration from the decoded file and `VITALS_TOKEN`.
  unfoldable pub load : Option Text → Result Raw String → Result (Config Addr) String
  unfolding with_token web_token
  load from_env (err e) = err e
  load from_env (ok raw) = with_token raw (web_token from_env raw.web.token)

  pub load-web_token :
      (from_env : Option Text) (raw : Raw) (cfg : Config Addr)
      → load from_env (ok raw) ≡ ok cfg
      → web_token from_env raw.web.token ≡ ok cfg.token
  unfolding load
  load-web_token from_env raw cfg h = elim (Result-cases (web_token from_env raw.web.token)) [
    | inr (x, e) ↦ let h' = rw e at h in absurd (ground arith)
    | inl (o, e) ↦ elim (Result-cases (parse_addr (unwrap_or raw.web.bind (codes default_bind)))) [
      | inr (x, f) ↦ let h' = rw (e, f) at h in absurd (ground arith)
      | inl (addr, f) ↦ let h' = rw (e, f) at h in rw e (ground arith)
    ]
  ]
