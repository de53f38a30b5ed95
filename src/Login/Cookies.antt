-- ===== src/Login/Cookies.antt =====
-- Who sees the dashboard of auth/src/auth.c. The routes are those of auth/conf/auth.conf.
use text.Mathlib.TextEquality.{eq_iff}
use kore_io_websocket.Base.{
  ◌≡◌, ◌↔◌, List, [], ◌∷◌, String, Option, some, arith, Option-cases, inl, inr,
}
use kore_io_websocket.Auth.Request.{
  method_get, KoreResult, result_ok, result_error, result_retry, http_response,
  http_response_header,
}
use kore_io_websocket.Auth.Pages.{Assets}
use kore_io_websocket.Login.{
  Visit, Site, auth_session, auth_login, auth_logout, page, login, dashboard,
}

pub data Route : Type 0 where
  to_page to_dashboard to_login to_ulogin to_logout : Route

module _ (A : Assets) where
  -- Kore sends a visitor that the validator refuses to the login form, without a call of the program.
  admitted : KoreResult × Site → Site
  unfolding dashboard
  admitted (result_ok, s) = dashboard A s
  admitted (result_error, s) = s
  admitted (result_retry, s) = s

  unfoldable pub serve : Route → Site → Site
  unfolding page login auth_login auth_logout admitted auth_session
  serve to_page s = page A s
  serve to_dashboard s = admitted (auth_session s.visit.hicookie s)
  serve to_login s = login A s
  serve to_ulogin s = auth_login A s
  serve to_logout s = auth_logout s

  -- The session that the visits leave, one after the other.
  unfoldable pub session_after : List (Route × Visit) → Option String → Option String
  unfolding serve
  session_after [] sess = sess
  session_after ((route, v) ∷ vs) sess =
      session_after vs (serve route (record { sess = sess; visit = v })).sess

  -- After any visits of any visitors, logins and logouts among them, a GET of the dashboard is answered
  -- with it exactly if it carries the cookie "user_sess": no login is needed, and a logout takes
  -- nothing back.
  pub dashboard_by_cookie :
      (vs : List (Route × Visit)) (sess : Option String) (v : Visit)
      → v.method ≡ method_get
      → v.calls ≡ []
      → ((serve to_dashboard (record { sess = session_after vs sess; visit = v })).visit.calls
          ≡ http_response 200 (some A.dashboard_html)
            ∷ http_response_header "content-type" "text/html"
            ∷ [])
        ↔ (v.hicookie ≡ some "user_sess")
  unfolding serve
  dashboard_by_cookie vs sess v m c = elim (Option-cases v.hicookie) [
    | inl e ↦ ground (arith, e, m, c)
    | inr (cookie, e) ↦ ground (arith, e, m, c, eq_iff "user_sess" cookie)
  ]
