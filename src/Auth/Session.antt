-- ===== src/Auth/Session.antt =====
-- The validators of auth2/src/auth2.c, `auth_session` and `auth_session_user`, and the callback
-- `db_state_change` that Kore runs when the database has moved on.
pub mod Balance
pub mod Steps
pub mod Origins
pub mod Verdicts
use text.Mathlib.Text.{◌==◌ as str_eq}
use kore_io_websocket.Base.{
  ℕ, ◌-◌, List, [], ◌∷◌, Bool, true, false, String, Option, none, some, ◌==◌, if◌then◌else◌,
}
use kore_io_websocket.Auth.Request.{
  PgState, init, wait, result, done, error, complete, commandok, notify, other_state, Pgsql,
  KoreResult, result_ok, result_error, result_retry, Ustate, Request, called, set_state, clean_up,
  http_state_create, kore_pgsql_init, kore_pgsql_logerror, kore_strdup, kore_free,
  http_request_wakeup, http_request_sleep,
}

abbrev pub sessi : String
sessi = "sess_auth"

abbrev pub q_fucker : String
q_fucker = "fucky"

abbrev pub is_complete : PgState → Bool
is_complete complete = true
is_complete _ = false

abbrev pub is_error : PgState → Bool
is_error error = true
is_error _ = false

abbrev pub is_init : PgState → Bool
is_init init = true
is_init _ = false

module _ (K : Pgsql) where
  open K use {Pg, state, conn_name, fresh, setup, query_params, continue_query, ntuples, getvalue}

  -- What the two steps of a query leave of the client, and whether an error was logged.
  after_query : Pg × Bool → Pg × Bool
  after_query (p, true) = (p, false)
  after_query (p, false) = (p, true)

  after_setup : String → String → ℕ → ℕ → String → Pg × Bool → Pg × Bool
  unfolding after_query
  after_setup qname text format count value (p, true) =
      after_query (query_params p text format count value)
  after_setup qname text format count value (p, false) =
      if is_init (state p) then (p, false) else (p, true)

  unfoldable pub db_query_params : Pg → String → String → ℕ → ℕ → String → Pg × Bool
  unfolding after_setup
  db_query_params p qname text format count value =
      after_setup qname text format count value (setup p qname)

  logged : Bool → Request Pg → Request Pg
  logged true r = called (kore_pgsql_logerror ∷ []) r
  logged false r = r

  -- The first call: state for the request, and the question to the database.
  begin : String → Request Pg → Request Pg
  unfolding db_query_params logged
  begin cookie r =
      let asked = db_query_params fresh sessi "select alt from banners where alt=$1" 0 1 cookie in
      logged asked.1 (
        called (kore_pgsql_init ∷ http_state_create ∷ [])
          (set_state (some (record { result_name = none; mu = 0; p = asked.0 })) r))

  -- The database is through: is the name it gave the cookie? `refused` is what the validator returns
  -- if it is not.
  compare_name : KoreResult → String → Option String → Request Pg → KoreResult × Request Pg
  compare_name refused cookie none r = (refused, clean_up r)
  compare_name refused cookie (some name) r =
      if str_eq name cookie then (result_ok, r) else (refused, clean_up (called (kore_free ∷ []) r))

  judge_session : String → Ustate Pg → Request Pg → KoreResult × Request Pg
  unfolding compare_name
  judge_session cookie st r =
      if is_complete (state st.p)
      then compare_name result_error cookie st.result_name r
      else if is_error (state st.p)
      then (result_error, clean_up (called (http_request_wakeup ∷ []) r))
      else (result_retry, r)

  on_session : String → Option (Ustate Pg) → Request Pg → KoreResult × Request Pg
  unfolding begin judge_session
  on_session cookie none r = (result_retry, begin cookie r)
  on_session cookie (some st) r = judge_session cookie st r

  unfoldable pub auth_session : Option String → Request Pg → KoreResult × Request Pg
  unfolding on_session
  auth_session none r = (result_error, r)
  auth_session (some cookie) r = on_session cookie r.state r

  judge_user : String → Ustate Pg → Request Pg → KoreResult × Request Pg
  unfolding compare_name
  judge_user cookie st r =
      if is_complete (state st.p)
      then compare_name result_ok cookie st.result_name (called (http_request_wakeup ∷ []) r)
      else if is_error (state st.p)
      then (result_ok, clean_up (called (http_request_wakeup ∷ []) r))
      else (result_retry, called (http_request_sleep ∷ []) r)

  on_user : String → Option (Ustate Pg) → Request Pg → KoreResult × Request Pg
  unfolding begin judge_user
  on_user cookie none r = (result_retry, begin cookie r)
  on_user cookie (some st) r = judge_user cookie st r

  by_cookie : Option String → Request Pg → KoreResult × Request Pg
  unfolding on_user
  by_cookie none r = (result_ok, r)
  by_cookie (some cookie) r = on_user cookie r.state r

  unfoldable pub auth_session_user : Request Pg → KoreResult × Request Pg
  unfolding by_cookie
  auth_session_user r = by_cookie r.hicookie r

  -- `name` at the end of the loop over the rows.
  unfoldable pub last_value : Pg → String
  last_value p = getvalue p (ntuples p - 1)

  -- Only the first name is kept.
  keep_name : String → Ustate Pg → Request Pg → Request Pg
  keep_name name st r = elim (st.result_name) [
    | some old ↦ r
    | none ↦
        called (kore_strdup name ∷ [])
          (set_state (some (record { result_name = some name; mu = 4; p = st.p })) r)
  ]

  unfoldable pub db_results : Ustate Pg → Request Pg → Request Pg
  unfolding keep_name last_value
  db_results st r =
      if str_eq sessi (conn_name st.p)
      then if ntuples st.p == 0 then r else keep_name (last_value st.p) st r
      else r

  go_on : Ustate Pg → Request Pg → Request Pg
  go_on st r = set_state (some (record st { p = continue_query st.p })) r

  -- The cases of the `switch`.
  by_pg_state : PgState → Ustate Pg → Request Pg → Request Pg
  unfolding db_results go_on
  by_pg_state init st r = r
  by_pg_state wait st r = r
  by_pg_state done st r = if str_eq (conn_name st.p) q_fucker then r else go_on st r
  by_pg_state commandok st r = r
  by_pg_state notify st r = r
  by_pg_state complete st r = r
  by_pg_state error st r = called (kore_pgsql_logerror ∷ []) r
  by_pg_state result st r = db_results st r
  by_pg_state other_state st r = go_on st r

  -- The client `p` stands in the state of the request, which the callback reads.
  unfoldable pub db_state_change : Option (Ustate Pg) → Request Pg → Option (Request Pg)
  unfolding by_pg_state
  db_state_change none r = none
  db_state_change (some st) r = some (by_pg_state (state st.p) st r)

  moved : Pg → Option (Ustate Pg) → Option (Ustate Pg)
  moved p none = none
  moved p (some st) = some (record st { p = p })

  -- The database has moved the client on to `p`, and Kore runs the callback.
  unfoldable pub db_event : Pg → Request Pg → Option (Request Pg)
  unfolding db_state_change moved
  db_event p r = db_state_change (moved p r.state) (set_state (moved p r.state) r)
