-- ===== src/Tests/Views.antt =====
-- The pages, and the collector.
use mathlib.Core.List.Permᴰ
use vm_vitals.Base.{
  ℕ, ◌≡◌, ◌↔◌, ◌⊎◌, true, false, String, List, [], ◌∷◌, Option, none, some, Text, codes, Map, ok,
  err,
}
use vm_vitals.Auth.Session.{session_cookie, session_valid}
use vm_vitals.Auth.Login.{logout}
use vm_vitals.Auth.Pages.{Page, index, status}
use vm_vitals.Auth.Pages.Views.{views_agree, logout-session_valid}
use vm_vitals.Web.Gate.{require_api_auth}
use vm_vitals.Collect.Cpu.{CpuSample, Stats}
use vm_vitals.Collect.Docker.{Listed, Daemon, Container, collect_containers}
use vm_vitals.Collect.Docker.Readings.{Collects, collect_containers_cases}
use vm_vitals.Tests.Toy.{toy, with_cookie, token_of}
use vm_vitals.Tests.Accounts.{claimed}
use vm_vitals.Tests.Surface.{whole}

abbrev session_jar : String → Option Text
session_jar = with_cookie session_cookie (token_of 2)

views_agree_example :
    (((index toy 500 session_jar (some claimed)).1 ≡ Page.dashboard_html)
      ↔ ((status toy 500 session_jar (some claimed)).1.signed_in ≡ true))
    × (((require_api_auth toy 500
            (record { authorization = none; jar = session_jar })
            none
            (some claimed)).1
          ≡ ok tt)
        ↔ ((status toy 500 session_jar (some claimed)).1.signed_in ≡ true))
views_agree_example = views_agree toy 500 session_jar none claimed

logout-session_valid_example :
    (session_valid toy 500 session_jar (logout toy session_jar claimed).0).1 ≡ false
logout-session_valid_example = logout-session_valid toy 500 session_jar claimed

-- One container, "web", with the id "7".
abbrev pub web_listed : Listed
web_listed = record {
  id = some (codes "7");
  names = some (codes "/web" ∷ []);
  image = none;
  state = some (codes "running");
  status = none;
}

abbrev web_stats : Stats
web_stats = record {
  total_usage = 300;
  system_cpu_usage = some 150;
  online_cpus = some 2;
  percpu_usage = none;
  mem_usage = none;
  mem_limit = none;
}

abbrev daemon : Daemon
daemon = record {
  listed = ok (web_listed ∷ []);
  inspect_container = λ key. none;
  stats = λ key. some web_stats;
  in_time = true;
}

abbrev before : Map CpuSample
before = (codes "7", record { total = 100; system = 50 }) ∷ []

collect_containers_cases_example :
    ((next : Map CpuSample) × (out : List (Container ℕ)) × (collect_containers whole
          (λ rs. rs)
          daemon
          before
        ≡ (next, ok out))
      × Collects whole daemon before next out)
    ⊎ ((e : String) × (collect_containers whole (λ rs. rs) daemon before ≡ (before, err e)))
collect_containers_cases_example =
    collect_containers_cases whole (λ rs. rs) (λ rs. Permᴰ.refl rs) daemon before
