-- ===== src/Tests/Surface.antt =====
-- The gate, the start, the configuration, the queries and the readings.
use vm_vitals.Base.{
  ℕ, ◌*◌, ◌/◌, ◌≤◌, ◌≡◌, refl, ◌↔◌, ◌⊎◌, true, false, String, Option, none, some, trim, encode_char,
  Text, codes, as_bytes, length, is_empty, Result, ok,
}
use vm_vitals.Base.Http.{Status}
use vm_vitals.Base.Int.{pos}
use vm_vitals.Auth.Session.{session_cookie}
use vm_vitals.Web.Gate.{Request, require_api_auth}
use vm_vitals.Web.Gate.Access.{Permitted, require_api_auth_iff}
use vm_vitals.Web.Health.{Published, IsFresh, healthz, healthz_iff}
use vm_vitals.Web.Series.{SeriesQuery, StoreQuery, max_points}
use vm_vitals.Config.{
  default_interval, default_bind, default_data_dir, default_docker_socket, Raw, Config,
  min_token_len, web_token, load,
}
use vm_vitals.Config.Token.{IsTrimmed, Gives, GivesNone, load-token}
use vm_vitals.Collect.Cpu.{Float}
use vm_vitals.Tests.Toy.{toy, no_cookies, with_cookie, token_of}
use vm_vitals.Tests.Accounts.{claimed}

-- A request with the cookie of a session, and one with nothing.
abbrev signed_request : Request (String → Option Text)
signed_request = record { authorization = none; jar = with_cookie session_cookie (token_of 2) }

abbrev pub bare_request : Request (String → Option Text)
bare_request = record { authorization = none; jar = no_cookies }

require_api_auth_iff_example :
    ((require_api_auth toy 500 signed_request (some (codes "secret")) (some claimed)).1 ≡ ok tt)
    ↔ Permitted toy 500 signed_request (some (codes "secret")) (some claimed)
require_api_auth_iff_example =
    require_api_auth_iff toy 500 signed_request (some (codes "secret")) (some claimed)

abbrev last : Published
last = record { ts = 100; docker_error = none; stale_after_secs = 45 }

healthz_iff_example :
    (((healthz 120 121 (some last)).0 ≡ Status.ok) ↔ IsFresh 120 (some last))
    × (((healthz 120 121 (some last)).0 ≡ Status.ok)
        ⊎ ((healthz 120 121 (some last)).0 ≡ Status.service_unavailable))
healthz_iff_example = healthz_iff 120 121 (some last)

abbrev pub day_query : SeriesQuery
day_query = record { metric = codes "host.cpu"; from = pos 0; to = pos 7200; res = none }

abbrev pub day_answer : StoreQuery
day_answer = record {
  metric = codes "host.cpu";
  from = pos 0;
  to = pos 7200;
  res = pos 300;
  limit = max_points;
}

abbrev pub raw_file : Raw
raw_file = record {
  interval_secs = none;
  web = record {
    bind = none;
    token = some (codes " 0123456789abcdef ");
    rp_id = none;
    rp_origin = none;
    data_dir = none;
  };
  socket = none;
}

-- Every address is accepted, as its text.
abbrev pub any_addr : Text → Result Text String
any_addr t = ok t

abbrev pub loaded : Config Text
loaded = record {
  interval_secs = default_interval;
  web_bind = codes default_bind;
  token = some (codes "0123456789abcdef");
  rp_id = none;
  rp_origin = none;
  data_dir = codes default_data_dir;
  docker_socket = codes default_docker_socket;
}

load-token_example :
    (min_token_len ≤ length (as_bytes (codes "0123456789abcdef")))
    × (is_empty (codes "0123456789abcdef") ≡ false)
    × IsTrimmed (codes "0123456789abcdef")
    × (Gives none (codes "0123456789abcdef")
        ⊎ (GivesNone none × Gives raw_file.web.token (codes "0123456789abcdef")))
unfolding load web_token trim as_bytes encode_char
load-token_example = load-token any_addr none raw_file loaded (codes "0123456789abcdef") refl refl

-- Whole numbers for floats.
abbrev pub whole : Float
whole = record {
  F = ℕ;
  of_ℕ = λ n. n;
  times = λ a b. a * b;
  divide = λ a b. a / b;
  is_finite = λ a. true;
  clamp = λ a lo hi. a;
}
