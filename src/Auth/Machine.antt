-- ===== src/Auth/Machine.antt =====
-- The query machine of auth2/src/auth2.c and auth1/src/auth1.c: the table `mystates` of handlers that Kore's
-- `http_state_run` calls for the state of a request, until one of them answers.
pub mod Progress
pub mod Runs
use kore_io_websocket.Base.{
  ℕ, List, [], ◌∷◌, ◌++◌, Bool, true, false, String, Option, none, some, if◌then◌else◌,
}
use kore_io_websocket.Auth.Request.{
  PgState, init, wait, result, done, error, complete, commandok, notify, other_state, Pgsql, Call,
  http_response, http_response_header, http_state_cleanup, kore_pgsql_cleanup, kore_pgsql_logerror,
  kore_free,
}
use kore_io_websocket.Auth.Session.{is_init}
use kore_io_websocket.Auth.Pages.{Assets}

-- REQ_STATE_INIT to REQ_STATE_DONE
pub data ReqState : Type 0 where
  req_init req_query req_db_wait req_db_read req_error req_done : ReqState

-- HTTP_STATE_CONTINUE, HTTP_STATE_RETRY, HTTP_STATE_COMPLETE
pub data HttpState : Type 0 where
  state_continue state_retry state_complete : HttpState

-- struct rstate
pub record Rstate (Pg : Type 0) : Type 0 where
  pub query : String
  pub q_name : String
  pub sql : Pg

-- The request as the machine uses it; `state` is what `http_state_get` gives.
pub record Machine (Pg : Type 0) : Type 0 where
  pub fsm_state : ReqState
  pub state : Option (Rstate Pg)
  pub calls : List Call

module _ (K : Pgsql) (A : Assets) where
  open K use {Pg, setup, continue_query, error_text}

  Turn : Type 0
  Turn = HttpState × Machine Pg

  go_to : ReqState → Pg → Rstate Pg → Machine Pg → Machine Pg
  go_to s p st m = record m { fsm_state = s; state = some (record st { sql = p }) }

  log_error : Machine Pg → Machine Pg
  log_error m = record m { calls = kore_pgsql_logerror ∷ m.calls }

  after_setup : Pg × Bool → Rstate Pg → Machine Pg → HttpState × Machine Pg
  unfolding go_to log_error
  after_setup (p, true) st m = (state_continue, go_to req_query p st m)
  after_setup (p, false) st m =
      if is_init (K.state p)
      then (state_retry, go_to req_init p st m)
      else (state_continue, log_error (go_to req_error p st m))

  request_perform_init : Rstate Pg → Machine Pg → HttpState × Machine Pg
  unfolding after_setup
  request_perform_init st m = after_setup (setup st.sql st.q_name) st m

  after_query : Pg × Bool → Rstate Pg → Machine Pg → HttpState × Machine Pg
  unfolding go_to
  after_query (p, true) st m = (state_retry, go_to req_db_wait p st m)
  after_query (p, false) st m = (state_continue, go_to req_db_wait p st m)

  request_perform_query : Rstate Pg → Machine Pg → HttpState × Machine Pg
  unfolding after_query
  request_perform_query st m = after_query (K.query st.sql st.query) st m

  go_on : Rstate Pg → Machine Pg → HttpState × Machine Pg
  unfolding go_to
  go_on st m = (state_continue, go_to req_db_wait (continue_query st.sql) st m)

  -- The cases of the `switch`, in the state REQ_STATE_DB_WAIT.
  wait_by : PgState → Rstate Pg → Machine Pg → HttpState × Machine Pg
  unfolding go_to go_on log_error
  wait_by wait st m = (state_retry, m)
  wait_by complete st m = (state_continue, go_to req_done st.sql st m)
  wait_by commandok st m = go_on st m
  wait_by error st m = (state_continue, log_error (go_to req_error st.sql st m))
  wait_by result st m = (state_continue, go_to req_db_read st.sql st m)
  wait_by init st m = go_on st m
  wait_by done st m = go_on st m
  wait_by notify st m = go_on st m
  wait_by other_state st m = go_on st m

  request_db_wait : Rstate Pg → Machine Pg → HttpState × Machine Pg
  unfolding wait_by
  request_db_wait st m = wait_by (K.state st.sql) st m

  -- The rows are only logged.
  request_db_read : Rstate Pg → Machine Pg → HttpState × Machine Pg
  unfolding go_on
  request_db_read st m = go_on st m

  -- The texts of the query are freed, the database client is given back, and the state is gone.
  dismiss : List Call → Machine Pg → Machine Pg
  dismiss later m = record m {
    state = none;
    calls = later ++ (http_state_cleanup ∷ kore_pgsql_cleanup ∷ kore_free ∷ kore_free ∷ m.calls);
  }

  request_error : Rstate Pg → Machine Pg → HttpState × Machine Pg
  unfolding dismiss
  request_error st m = (
    state_complete,
    dismiss [] (record m { calls = http_response 500 (some (error_text st.sql)) ∷ m.calls }),
  )

  request_done : Rstate Pg → Machine Pg → HttpState × Machine Pg
  unfolding dismiss
  request_done st m = (
    state_complete,
    dismiss
        (http_response 200 (some A.page_html)
          ∷ http_response_header "content-type" "text/html"
          ∷ [])
        m,
  )

  -- The table.
  mystates : ReqState → Rstate Pg → Machine Pg → HttpState × Machine Pg
  unfolding request_perform_init request_perform_query request_db_wait request_db_read request_error
      request_done
  mystates req_init st m = request_perform_init st m
  mystates req_query st m = request_perform_query st m
  mystates req_db_wait st m = request_db_wait st m
  mystates req_db_read st m = request_db_read st m
  mystates req_error st m = request_error st m
  mystates req_done st m = request_done st m

  on_state : Option (Rstate Pg) → Machine Pg → Option (HttpState × Machine Pg)
  unfolding mystates
  on_state none m = none
  on_state (some st) m = some (mystates m.fsm_state st m)

  -- One call of the handler of the current state; `none` is a read through the NULL of
  -- `http_state_get`.
  unfoldable pub turn : Machine Pg → Option (HttpState × Machine Pg)
  unfolding on_state
  turn m = on_state m.state m
