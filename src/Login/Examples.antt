-- ===== src/Login/Examples.antt =====
-- The theorem on the dashboard of auth/src/auth.c after a login and a logout.
use kore_io_websocket.Base.{◌≡◌, ◌↔◌, refl, List, [], ◌∷◌, String, Option, none, some}
use kore_io_websocket.Auth.Request.{method_get, method_post, http_response, http_response_header}
use kore_io_websocket.Auth.Pages.{Assets}
use kore_io_websocket.Login.{Visit}
use kore_io_websocket.Login.Cookies.{
  Route, to_dashboard, to_ulogin, to_logout, serve, session_after, dashboard_by_cookie,
}

abbrev assets : Assets
assets = record { page_html = "page"; login_html = "login"; dashboard_html = "dashboard" }

abbrev stranger : Visit
stranger = record {
  method = method_get;
  user = none;
  passphrase = none;
  hicookie = some "user_sess";
  hdlr_extra = none;
  calls = [];
}

abbrev globi : Visit
globi = record stranger {
  method = method_post;
  user = some "globi";
  passphrase = some "globi";
  hicookie = none;
}

abbrev before : List (Route × Visit)
before = (to_ulogin, globi) ∷ (to_logout, stranger) ∷ []

dashboard_by_cookie_example :
    ((serve assets to_dashboard
        (record { sess = session_after assets before none; visit = stranger })).visit.calls
      ≡ http_response 200 (some "dashboard") ∷ http_response_header "content-type" "text/html" ∷ [])
    ↔ (◌≡◌ {A = Option String} (some "user_sess") (some "user_sess"))
dashboard_by_cookie_example = dashboard_by_cookie assets before none stranger refl refl
