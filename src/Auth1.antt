-- ===== src/Auth1.antt =====
-- auth1/src/auth1.c, the program that auth2 grew from. Its query machine is the same text as that of
-- auth2 (Auth/Machine), and so are `db_query_params` and `db_results` (Auth/Session). The validator,
-- the callback, the pages and the global `sess` are its own.
pub mod Leaks
mod Examples
use text.Mathlib.Text.{◌==◌ as str_eq}
use kore_io_websocket.Base.{
  ℕ, List, [], ◌∷◌, Bool, true, false, String, Option, none, some, if◌then◌else◌,
}
use kore_io_websocket.Auth.Request.{
  kore_strdup, PgState, init, wait, result, done, error, complete, commandok, notify, other_state,
  Pgsql, Method, method_get, method_post, method_other, KoreResult, result_ok, result_error,
  result_retry, Ustate, Request, called, set_state, clean_up, free_name, http_response,
  http_response_header, http_response_cookie, cookie_flags_cleared, http_state_create,
  http_state_cleanup, kore_pgsql_init, kore_pgsql_logerror, kore_free, http_request_wakeup,
  http_request_sleep,
}
use kore_io_websocket.Auth.Session.{sessi, is_complete, is_error, db_query_params, db_results}
use kore_io_websocket.Auth.Pages.{Assets, redirect}
use kore_io_websocket.Auth.Machine.{req_init, Rstate, Machine}

module _ (K : Pgsql) where
  open K use {Pg, state, fresh, continue_query}

  begin : String → Request Pg → Request Pg
  unfolding db_query_params
  begin cookie r =
      let asked = db_query_params K fresh sessi "select alt from banners where alt=$1" 0 1 cookie in
      let opened =
        called (kore_pgsql_init ∷ http_state_create ∷ [])
          (set_state (some (record { result_name = none; mu = 0; p = asked.0 })) r) in
      if asked.1 then called (kore_pgsql_logerror ∷ []) opened else opened

  compare_name : String → Option String → Request Pg → KoreResult × Request Pg
  compare_name cookie none r = (result_error, clean_up r)
  compare_name cookie (some name) r =
      if str_eq name cookie
      then (result_ok, r)
      else (result_error, clean_up (called (kore_free ∷ []) r))

  judge : String → Ustate Pg → Request Pg → KoreResult × Request Pg
  unfolding compare_name
  judge cookie st r =
      if is_complete (state st.p)
      then compare_name cookie st.result_name (called (http_request_wakeup ∷ []) r)
      else if is_error (state st.p)
      then (result_error, clean_up (called (http_request_wakeup ∷ []) r))
      else (result_retry, called (http_request_sleep ∷ []) r)

  on_session : String → Option (Ustate Pg) → Request Pg → KoreResult × Request Pg
  unfolding begin judge
  on_session cookie none r = (result_retry, begin cookie r)
  on_session cookie (some st) r = judge cookie st r

  unfoldable pub auth_session : Option String → Request Pg → KoreResult × Request Pg
  unfolding on_session
  auth_session none r = (result_error, r)
  auth_session (some cookie) r = on_session cookie r.state r

  go_on : Ustate Pg → Request Pg → Request Pg
  go_on st r = set_state (some (record st { p = continue_query st.p })) r

  -- The `switch`: a client that is done goes on, whatever connection it is on.
  by_pg_state : PgState → Ustate Pg → Request Pg → Request Pg
  unfolding go_on db_results
  by_pg_state init st r = r
  by_pg_state wait st r = r
  by_pg_state done st r = go_on st r
  by_pg_state commandok st r = r
  by_pg_state notify st r = r
  by_pg_state complete st r = r
  by_pg_state error st r = called (kore_pgsql_logerror ∷ []) r
  by_pg_state result st r = db_results K st r
  by_pg_state other_state st r = go_on st r

  unfoldable pub db_state_change : Option (Ustate Pg) → Request Pg → Option (Request Pg)
  unfolding by_pg_state
  db_state_change none r = none
  db_state_change (some st) r = some (by_pg_state (state st.p) st r)

  -- The state for the query machine, if the request has none yet.
  prepare : Option (Rstate Pg) → Machine Pg → Machine Pg
  prepare (some st) m = m
  prepare none m = record m {
    state = some (record {
      query = "select alt from banners where alt='user_sess'";
      q_name = "db";
      sql = fresh;
    });
    calls =
        kore_pgsql_init
        ∷ kore_strdup "db"
        ∷ kore_strdup "select alt from banners where alt='user_sess'"
        ∷ http_state_create
        ∷ m.calls;
  }

  -- `run` is Kore's `http_state_run` over the table of Auth/Machine.
  unfoldable pub page :
      (Machine Pg → KoreResult × Machine Pg) → Method → Machine Pg → KoreResult × Machine Pg
  unfolding prepare
  page run method_get m = run (prepare m.state m)
  page run method_post m = (
    result_ok,
    record m { calls = http_response 405 none ∷ http_response_header "allow" "get" ∷ m.calls },
  )
  page run method_other m = (
    result_ok,
    record m { calls = http_response 405 none ∷ http_response_header "allow" "get" ∷ m.calls },
  )

-- The global `sess` is set by the first login and cleared by a logout.
adopt : Option String → Option String
adopt none = some "user_sess"
adopt (some s) = some s

module _ {Pg : Type 0} where
  refuse : String → Option String → Request Pg → KoreResult × Request Pg
  refuse allowed body r =
      (result_ok, called (http_response 405 body ∷ http_response_header "allow" allowed ∷ []) r)

  show : String → Request Pg → KoreResult × Request Pg
  show html r = (
    result_ok,
    called (http_response 200 (some html) ∷ http_response_header "content-type" "text/html" ∷ []) r,
  )

  -- The client of the database is not given back.
  drop_state : Option (Ustate Pg) → Request Pg → Request Pg
  drop_state none r = r
  drop_state (some st) r =
      called (http_state_cleanup ∷ []) (set_state none (free_name st.result_name r))

  on_dashboard : String → Method → Request Pg → KoreResult × Request Pg
  unfolding refuse show drop_state
  on_dashboard html method_get r = show html (drop_state r.state r)
  on_dashboard html method_post r = refuse "get" none r
  on_dashboard html method_other r = refuse "get" none r

  unfoldable pub dashboard : Assets → Request Pg → KoreResult × Request Pg
  unfolding on_dashboard
  dashboard A r = on_dashboard A.dashboard_html r.method r

  grant : Option String → Request Pg → Option String × Request Pg
  unfolding adopt
  grant sess r = (
    adopt sess,
    called
        (http_response 302 (some "NULL")
          ∷ cookie_flags_cleared
          ∷ http_response_cookie "hicookie" "user_sess" "/"
          ∷ http_response_header "location" "/dashboard/"
          ∷ [])
        r,
  )

  ask_again : Assets → Option String → Request Pg → Option String × Request Pg
  unfolding show
  ask_again A sess r = (sess, (show A.login_html (record r { method = method_get })).1)

  check :
      Assets
      → Option String
      → Option String
      → Option String
      → Request Pg
      → Option String × Request Pg
  unfolding grant ask_again
  check A sess none pass r = (sess, called (http_response 200 (some "nouser") ∷ []) r)
  check A sess (some user) none r = (sess, called (http_response 200 (some "nopwd") ∷ []) r)
  check A sess (some user) (some pass) r =
      if str_eq user "globi"
      then if str_eq "globi" pass then grant sess r else ask_again A sess r
      else ask_again A sess r

  on_login : Assets → Option String → Method → Request Pg → Option String × Request Pg
  unfolding check refuse
  on_login A sess method_post r = check A sess r.user r.passphrase r
  on_login A sess method_get r = (sess, (refuse "post" (some "po") r).1)
  on_login A sess method_other r = (sess, (refuse "post" (some "po") r).1)

  -- Every path returns KORE_RESULT_OK; the first component is `sess` after the call.
  unfoldable pub auth_login : Assets → Option String → Request Pg → Option String × Request Pg
  unfolding on_login
  auth_login A sess r = on_login A sess r.method r

  on_logout : Option String → Method → Request Pg → Option String × Request Pg
  unfolding refuse redirect
  on_logout sess method_get r = (
    none,
    (redirect (
        called
          (http_response_header "set-cookie"
              "hicookie=null; path=/; expires=Thu, 01 Jan 1970 00:00:00 GMT"
            ∷ [])
          r)).1,
  )
  on_logout sess method_post r = (sess, (refuse "get" none r).1)
  on_logout sess method_other r = (sess, (refuse "get" none r).1)

  unfoldable pub auth_logout : Option String → Request Pg → Option String × Request Pg
  unfolding on_logout
  auth_logout sess r = on_logout sess r.method r
