-- ===== src/Login.antt =====
-- auth/src/auth.c, the first stage of auth1: pages behind a cookie whose value is a constant. A request
-- comes with what it carries, and `sess` is the global of the program; the calls of Kore are kept, the
-- latest first.
pub mod Cookies
mod Examples
use text.Mathlib.Text.{◌==◌ as str_eq}
use kore_io_websocket.Base.{
  ℕ, List, [], ◌∷◌, ◌++◌, Bool, true, false, String, Option, none, some, if◌then◌else◌,
}
use kore_io_websocket.Auth.Request.{
  Method, method_get, method_post, method_other, KoreResult, result_ok, result_error, Call,
  http_response, http_response_header, http_response_cookie, cookie_flags_cleared,
}
use kore_io_websocket.Auth.Pages.{Assets}

pub record Visit : Type 0 where
  pub method : Method
  pub user : Option String
  pub passphrase : Option String
  pub hicookie : Option String
  pub hdlr_extra : Option String
  pub calls : List Call

-- The global `sess` and the visit.
pub record Site : Type 0 where
  pub sess : Option String
  pub visit : Visit

abbrev pub called : List Call → Site → Site
called cs s = record s { visit = record s.visit { calls = cs ++ s.visit.calls } }

refuse : String → Option String → Site → Site
refuse allowed body s =
    called (http_response 405 body ∷ http_response_header "allow" allowed ∷ []) s

show : String → Site → Site
show html s =
    called (http_response 200 (some html) ∷ http_response_header "content-type" "text/html" ∷ []) s

with_extra : Option String → Site → Site
with_extra e s = record s { visit = record s.visit { hdlr_extra = e } }

set_sess : Option String → Site → Site
set_sess sess s = record s { sess = sess }

-- `auth_session`: the validator, which Kore calls with the cookie.
unfoldable pub auth_session : Option String → Site → KoreResult × Site
unfolding with_extra
auth_session none s = (result_error, s)
auth_session (some cookie) s =
    if str_eq "user_sess" cookie
    then (result_ok, elim (s.visit.hdlr_extra) [ none ↦ with_extra (some "ABBA") s | some e ↦ s ])
    else (result_error, s)

unfoldable pub auth_user_exists : Option String → KoreResult
auth_user_exists none = result_error
auth_user_exists (some user) = if str_eq "globi" user then result_ok else result_error

unfoldable pub redirect : Site → Site
redirect s = called (http_response 302 none ∷ http_response_header "location" "/" ∷ []) s

log_out : Method → Site → Site
unfolding refuse redirect set_sess
log_out method_get s = redirect (
    called
      (http_response_header "set-cookie"
          "hicookie=null; path=/; expires=Thu, 01 Jan 1970 00:00:00 GMT"
        ∷ [])
      (set_sess none s))
log_out method_post s = refuse "get" none s
log_out method_other s = refuse "get" none s

unfoldable pub auth_logout : Site → Site
unfolding log_out
auth_logout s = log_out s.visit.method s

adopt : Option String → Option String
adopt none = some "user_sess"
adopt (some sess) = some sess

welcome : Site → Site
unfolding set_sess adopt
welcome s =
    called
      (http_response 302 none
        ∷ cookie_flags_cleared
        ∷ http_response_cookie "hicookie" "user_sess" "/"
        ∷ http_response_header "location" "/dashboard/"
        ∷ [])
      (set_sess (adopt s.sess) s)

module _ (A : Assets) where
  shown : String → Method → Site → Site
  unfolding refuse show
  shown html method_get s = show html s
  shown html method_post s = refuse "get" none s
  shown html method_other s = refuse "get" none s

  unfoldable pub page : Site → Site
  unfolding shown
  page s = shown A.page_html s.visit.method s

  unfoldable pub login : Site → Site
  unfolding shown
  login s = shown A.login_html s.visit.method s

  on_dashboard : Method → Site → Site
  unfolding shown refuse with_extra show
  on_dashboard method_get s = show A.dashboard_html (with_extra none s)
  on_dashboard method_post s = refuse "get" none s
  on_dashboard method_other s = refuse "get" none s

  unfoldable pub dashboard : Site → Site
  unfolding on_dashboard
  dashboard s = on_dashboard s.visit.method s

  -- The form is shown again, and the request counts as a GET from here on.
  again : Site → Site
  unfolding show
  again s = show A.login_html (record s { visit = record s.visit { method = method_get } })

  check_passphrase : String → Option String → Site → Site
  unfolding again welcome
  check_passphrase user none s = called (http_response 200 (some "nopwd") ∷ []) s
  check_passphrase user (some pass) s =
      if str_eq user "globi" then if str_eq "globi" pass then welcome s else again s else again s

  check_user : Option String → Option String → Site → Site
  unfolding check_passphrase
  check_user none pass s = called (http_response 200 (some "nouser") ∷ []) s
  check_user (some user) pass s = check_passphrase user pass s

  log_in : Method → Site → Site
  unfolding check_user refuse
  log_in method_post s = check_user s.visit.user s.visit.passphrase s
  log_in method_get s = refuse "post" (some "po") s
  log_in method_other s = refuse "post" (some "po") s

  unfoldable pub auth_login : Site → Site
  unfolding log_in
  auth_login s = log_in s.visit.method s
