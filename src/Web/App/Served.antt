-- ===== src/Web/App/Served.antt =====
-- web.rs, `status` and `series`: what a request that is let through is answered.
use vm_vitals.Base.{ℕ, ◌≡◌, refl, ap, ◌∙◌, List, some, text_eq, ok, take}
use vm_vitals.Base.Http.{Status}
use vm_vitals.Auth.Crates.{Crates}
use vm_vitals.Store.Table.{Row, columns}
use vm_vitals.Store.Table.Sound.{Sound}
use vm_vitals.Store.Table.Content.{content}
use vm_vitals.Store.Table.Answer.{Answers, series-Answers}
use vm_vitals.Web.Gate.Access.{Permitted}
use vm_vitals.Web.Series.{
  SeriesQuery, StoreQuery, checked_query, checked_query_sound, IsTier, answer, max_points,
}
use vm_vitals.Web.Router.{
  to_status, to_series, Route, Response, security_headers, is_gated, route, method_get,
}
use vm_vitals.Web.Router.Gated.{router-passes}
use vm_vitals.Web.App.{
  AppState, Incoming, Reply, latest, points, handle, handlers, run_query, serve,
}

abbrev pub series_route : Route
series_route = route "/api/series" method_get to_series

abbrev pub status_route : Route
status_route = route "/api/status" method_get to_status

module _ {c : Crates} {Host F : Type 0} (render : Reply c Host F → Response)
    (of_status : Status → Response) (missing : Response) (now : ℕ) where
  -- A request that is let through is answered with the snapshot that was published last.
  pub serve-status :
      (req : Incoming c Host F) (app : AppState c Host F)
      → Permitted c now req.gate app.token app.auth
      → (serve render of_status missing now (some status_route) req app).1
        ≡ security_headers (render (latest app.snapshot))
  unfolding serve handlers handle is_gated text_eq
  serve-status req app may =
      ap (λ s. s.1)
        (router-passes c of_status missing (handlers render req app) now req.gate app.token
          status_route app.auth refl may)

  pub serve-series :
      (req : Incoming c Host F) (app : AppState c Host F) (q : SeriesQuery) (s : StoreQuery)
      → Permitted c now req.gate app.token app.auth
      → Sound app.store
      → req.query ≡ some q
      → req.database ≡ some (ok tt)
      → checked_query q ≡ ok s
      → (rows : List (Row F)) × ((serve render of_status missing now (some series_route) req app).1
          ≡ security_headers (render (points (ok (s.res, columns (take max_points rows))))))
        × Answers (content app.store) q.metric q.from q.to s.res rows
        × IsTier s.res
  unfolding serve handlers handle is_gated text_eq run_query answer
  serve-series req app q s may sound asked runs checked =
      let (order, tier, choice, m, f, t, lim) = checked_query_sound q s checked in
      let (rows, given, answers) =
        series-Answers q.metric q.from q.to s.res max_points app.store sound in
      (
        rows,
        ap (λ s. s.1)
              (router-passes c of_status missing (handlers render req app) now req.gate app.token
                series_route app.auth refl may)
            ∙ rw (asked, runs, checked, m, f, t, lim, given) refl,
        answers,
        tier,
      )
