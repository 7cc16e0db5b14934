-- ===== src/Tests/Routes.antt =====
-- The router, and the figures of the host.
use vm_vitals.Base.{ℕ, ◌≡◌, refl, [], ◌∷◌, Option, none, some, arith, codes, get, text_eq}
use vm_vitals.Base.Http.{Status}
use vm_vitals.Auth.State.{AuthState}
use vm_vitals.Web.Gate.Access.{Permitted, by_token, by_session, unconfigured}
use vm_vitals.Web.Router.{Endpoint, Response, method_get, to_index, route, dispatch, router}
use vm_vitals.Web.Router.Headers.{IsHardened, router-headers}
use vm_vitals.Collect.Host.{System, IsPercentable}
use vm_vitals.Tests.Toy.{toy}
use vm_vitals.Tests.Accounts.{claimed}
use vm_vitals.Tests.Surface.{whole, bare_request}

abbrev pub plain : Status → Response
plain status = record { status = status; headers = []; body = [] }

-- A handler that sets a header of its own, and one that also signs everybody out.
abbrev page : Endpoint → Option (AuthState toy) → Option (AuthState toy) × Response
page e auth = (
  auth,
  record {
    status = Status.ok;
    headers = (codes "x-frame-options", codes "SAMEORIGIN") ∷ [];
    body = codes "data";
  },
)

abbrev forgetful : Endpoint → Option (AuthState toy) → Option (AuthState toy) × Response
forgetful e auth = (none, plain Status.ok)

router-headers_example :
    let inner =
      (dispatch toy plain
        (plain Status.not_found)
        page
        500
        bare_request
        none
        (some (route "/" method_get to_index))
        (some claimed)).1 in
    let sent =
      (router toy plain
        (plain Status.not_found)
        page
        500
        bare_request
        none
        (some (route "/" method_get to_index))
        (some claimed)).1 in
    IsHardened sent.headers
    × (get (codes "content-length") sent.headers ≡ get (codes "content-length") inner.headers)
    × (sent.status ≡ inner.status)
unfolding text_eq
router-headers_example =
    router-headers toy plain (plain Status.not_found) page 500 bare_request none
      (some (route "/" method_get to_index)) (some claimed) (codes "content-length")
      (refl, (refl, (refl, (refl, (refl, (refl, tt))))))

pub refused : ¬ Permitted toy 500 bare_request (some (codes "secret")) (some claimed)
refused (by_token t e b) = ground (arith, b.sent)
refused (by_session a e s) = ground (arith, s.carried)
refused (unconfigured e f) = absurd (ground arith)

whole-IsPercentable : IsPercentable whole
whole-IsPercentable = record { whole = λ a w. refl; percent = λ a b l p w. refl }

abbrev readings : System ℕ ℕ
readings = record {
  cpu_usage = 12;
  total_memory = 8000000000;
  available_memory = 3000000000;
  used_swap = 0;
  disks = record { mount_point = codes "/"; total_space = 100; available_space = 40 } ∷ [];
  host_name = none;
  load_one = 1;
  load_five = 1;
  load_fifteen = 1;
  uptime = 60;
}
