-- ===== src/Auth/Pages.antt =====
-- The pages of auth2/src/auth2.c.
pub mod Answers
use text.Mathlib.Text.{◌==◌ as str_eq}
use kore_io_websocket.Base.{ℕ, List, [], ◌∷◌, Bool, String, Option, none, some, if◌then◌else◌}
use kore_io_websocket.Auth.Request.{
  Method, method_get, method_post, method_other, KoreResult, result_ok, result_error, Ustate,
  Request, called, clean_up, free_name, http_response_header, http_response, http_response_cookie,
  cookie_flags_cleared,
}

-- The pages that the build puts into assets.h.
pub record Assets : Type 0 where
  pub page_html : String
  pub login_html : String
  pub dashboard_html : String

unfoldable pub auth_user_exists : Option String → KoreResult
auth_user_exists none = result_error
auth_user_exists (some user) = if str_eq "globi" user then result_ok else result_error

module _ {Pg : Type 0} where
  refuse_method : String → Option String → Request Pg → KoreResult × Request Pg
  refuse_method allowed body r =
      (result_ok, called (http_response 405 body ∷ http_response_header "allow" allowed ∷ []) r)

  serve : String → Request Pg → KoreResult × Request Pg
  serve html r = (
    result_ok,
    called (http_response 200 (some html) ∷ http_response_header "content-type" "text/html" ∷ []) r,
  )

  leave_state : Option (Ustate Pg) → Request Pg → Request Pg
  leave_state none r = r
  leave_state (some st) r = clean_up (free_name st.result_name r)

  -- `page` and `dashboard`, which differ in what they serve.
  guarded : String → Method → Request Pg → KoreResult × Request Pg
  unfolding refuse_method serve leave_state
  guarded html method_get r = serve html (leave_state r.state r)
  guarded html method_post r = refuse_method "get" none r
  guarded html method_other r = refuse_method "get" none r

  unfoldable pub redirect : Request Pg → KoreResult × Request Pg
  redirect r =
      (result_ok, called (http_response 302 none ∷ http_response_header "location" "/" ∷ []) r)

  log_out : Method → Request Pg → KoreResult × Request Pg
  unfolding refuse_method redirect
  log_out method_get r = redirect (
      called
        (http_response_header "set-cookie"
            "hicookie=null; path=/; expires=Thu, 01 Jan 1970 00:00:00 GMT"
          ∷ [])
        r)
  log_out method_post r = refuse_method "get" none r
  log_out method_other r = refuse_method "get" none r

  unfoldable pub auth_logout : Request Pg → KoreResult × Request Pg
  unfolding log_out
  auth_logout r = log_out r.method r

  answer_plain : String → Request Pg → KoreResult × Request Pg
  answer_plain text r = (result_ok, called (http_response 200 (some text) ∷ []) r)

  -- The cookie gets no flag `HTTPONLY` and no flag `SECURE`.
  welcome : Request Pg → KoreResult × Request Pg
  welcome r = (
    result_ok,
    called
        (http_response 302 (some "NULL")
          ∷ cookie_flags_cleared
          ∷ http_response_cookie "hicookie" "user_sess" "/"
          ∷ http_response_header "location" "/dashboard/"
          ∷ [])
        r,
  )

  module _ (A : Assets) where
    unfoldable pub page : Request Pg → KoreResult × Request Pg
    unfolding guarded
    page r = guarded A.page_html r.method r

    unfoldable pub dashboard : Request Pg → KoreResult × Request Pg
    unfolding guarded
    dashboard r = guarded A.dashboard_html r.method r

    login_page : Method → Request Pg → KoreResult × Request Pg
    unfolding refuse_method serve
    login_page method_get r = serve A.login_html r
    login_page method_post r = refuse_method "get" none r
    login_page method_other r = refuse_method "get" none r

    unfoldable pub login : Request Pg → KoreResult × Request Pg
    unfolding login_page
    login r = login_page r.method r

    -- The form is shown again, and the request counts as a GET.
    again : Request Pg → KoreResult × Request Pg
    unfolding serve
    again r = serve A.login_html (record r { method = method_get })

    check_passphrase : Option String → String → Request Pg → KoreResult × Request Pg
    unfolding answer_plain again welcome
    check_passphrase none user r = answer_plain "nopwd" r
    check_passphrase (some pass) user r =
        if str_eq user "globi" then if str_eq "globi" pass then welcome r else again r else again r

    check_user : Option String → Request Pg → KoreResult × Request Pg
    unfolding answer_plain check_passphrase
    check_user none r = answer_plain "nouser" r
    check_user (some user) r = check_passphrase r.passphrase user r

    log_in : Method → Request Pg → KoreResult × Request Pg
    unfolding refuse_method check_user
    log_in method_post r = check_user r.user r
    log_in method_get r = refuse_method "post" (some "po") r
    log_in method_other r = refuse_method "post" (some "po") r

    unfoldable pub auth_login : Request Pg → KoreResult × Request Pg
    unfolding log_in
    auth_login r = log_in r.method r
