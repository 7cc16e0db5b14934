-- ===== src/Tests/Served.antt =====
-- The server: what is answered, to whom.
use vm_vitals.Base.{ℕ, ◌≡◌, refl, String, Option, none, some, Text, codes, ok, err}
use vm_vitals.Base.Http.{Status}
use vm_vitals.Web.Gate.{Request}
use vm_vitals.Web.Gate.Access.{Permitted, by_token}
use vm_vitals.Web.Router.{Response}
use vm_vitals.Web.App.{AppState, Incoming, Reply, points, health, serve}
use vm_vitals.Web.App.Secret.{serve-Alike}
use vm_vitals.Web.App.Served.{series_route}
use vm_vitals.Collect.Snapshot.{published}
use vm_vitals.Main.Points.{HostFigures}
use vm_vitals.Tests.Toy.{toy, no_cookies, env_at}
use vm_vitals.Tests.Accounts.{claimed}
use vm_vitals.Tests.Surface.{bare_request, day_query}
use vm_vitals.Tests.Store.{opened, written}
use vm_vitals.Tests.Loop.{bare, quiet}
use vm_vitals.Tests.Routes.{plain, refused}

-- A response without text.
abbrev pub render : Reply toy (HostFigures ℕ) ℕ → Response
render (points (err (status, e))) = plain status
render (health (status, a)) = plain status
render r = plain Status.ok

abbrev app : AppState toy (HostFigures ℕ) ℕ
app = record {
  snapshot = some bare;
  token = some (codes "secret");
  auth = some claimed;
  store = written;
}

-- The same to anybody, with a busier host and no history.
abbrev other_app : AppState toy (HostFigures ℕ) ℕ
other_app = record app {
  snapshot = some (record bare { host = record quiet { cpu_pct = 90 } });
  store = opened;
}

abbrev pub bearer_request : Request (String → Option Text)
bearer_request = record { authorization = some (some (codes "Bearer secret")); jar = no_cookies }

abbrev pub asks : Request (String → Option Text) → Incoming toy (HostFigures ℕ) ℕ
asks gate = record {
  gate = gate;
  env = env_at 500 1;
  body = none;
  registers = none;
  signs_in = none;
  query = some day_query;
  database = some (ok tt);
}

pub may : Permitted toy 500 bearer_request (some (codes "secret")) (some claimed)
may = by_token (codes "secret") refl (record { got = codes "secret"; sent = refl; matches = refl })

serve-Alike_example :
    ((serve render plain (plain Status.not_found) 500 (some series_route) (asks bare_request) app).1
      ≡ (serve render plain
          (plain Status.not_found)
          500
          (some series_route)
          (asks bare_request)
          other_app).1)
    × ((serve render plain
          (plain Status.not_found)
          500
          (some series_route)
          (asks bare_request)
          app).0.auth
        ≡ (serve render plain
            (plain Status.not_found)
            500
            (some series_route)
            (asks bare_request)
            other_app).0.auth)
unfolding published
serve-Alike_example =
    serve-Alike render plain (plain Status.not_found) 500 (asks bare_request) app other_app 9
      series_route (record { token = refl; auth = refl; health = refl }) refl refused
