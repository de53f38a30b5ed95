-- ===== src/Auth/Examples.antt =====
-- A database client for the requests of auth2/src/auth2.c, and the theorems on them at one request.
mod Queries
use kore_io_websocket.Base.{
  ℕ, zero, suc, ◌+◌, ◌≡◌, refl, ◌≢◌, ◌↔◌, List, [], ◌∷◌, true, String, Option, none, some, length,
  arith, Memᴰ,
}
use kore_io_websocket.Auth.Request.{
  PgState, init, wait, result, complete, error, Pgsql, result_ok, result_error, result_retry,
  method_get, method_post, Request, Call, http_state_create, kore_pgsql_init, kore_strdup,
}
use kore_io_websocket.Auth.Session.{auth_session, auth_session_user, db_event}
use kore_io_websocket.Auth.Session.Verdicts.{
  Confirmed, session_admits, StateAfter, session_leaves, at_work, user_never_refused,
}
use kore_io_websocket.Auth.Session.Steps.{Reach, arrives, validates, moves}
use kore_io_websocket.Auth.Session.Origins.{Answer, admitted_by_database}
use kore_io_websocket.Auth.Session.Balance.{
  opened, closed, copied, freed, held, held_name, clients_balance, session_names, error_leaks_name,
}
use kore_io_websocket.Auth.Pages.{Assets, page, dashboard, login, auth_login, auth_logout}
use kore_io_websocket.Auth.Pages.Answers.{
  answers, pages_answer_once, Granted, Globi, login_grants, kept_by, pages_keep,
}

pub record Client : Type 0 where
  pub at : PgState
  pub name : String
  pub rows : List String

abbrev pub row : List String → ℕ → String
row [] i = ""
row (x ∷ xs) zero = x
row (x ∷ xs) (suc i) = row xs i

abbrev pub database : Pgsql
database = record {
  Pg = Client;
  state = λ (c : Client). c.at;
  conn_name = λ (c : Client). c.name;
  error_text = λ (c : Client). "";
  fresh = record { at = init; name = ""; rows = [] };
  setup = λ (c : Client) name. (record c { name = name }, true);
  query_params = λ (c : Client) text format count value. (record c { at = wait }, true);
  query = λ (c : Client) text. (record c { at = wait }, true);
  continue_query = λ (c : Client). record c { at = complete };
  ntuples = λ (c : Client). length c.rows;
  getvalue = λ (c : Client) i. row c.rows i;
}

abbrev pub assets : Assets
assets = record { page_html = "page"; login_html = "login"; dashboard_html = "dashboard" }

abbrev pub client : PgState → Client
client s = record { at = s; name = "sess_auth"; rows = "user_sess" ∷ [] }

abbrev arrived : Request Client
arrived = record {
  method = method_get;
  hicookie = some "user_sess";
  user = some "globi";
  passphrase = some "globi";
  state = none;
  calls = [];
}

abbrev in_state : PgState → Option String → List Call → Request Client
in_state s name calls = record arrived {
  state = some (record { result_name = name; mu = 4; p = client s });
  calls = calls;
}

abbrev told : List Call
told = kore_strdup "user_sess" ∷ kore_pgsql_init ∷ http_state_create ∷ []

abbrev asked : Request Client
asked = (auth_session database (some "user_sess") arrived).1

answered : db_event database (client result) asked ≡ some (in_state result (some "user_sess") told)
unfolding db_event auth_session
answered = refl

finished :
    db_event database (client complete) (in_state result (some "user_sess") told)
    ≡ some (in_state complete (some "user_sess") told)
unfolding db_event
finished = refl

abbrev through : Request Client
through = in_state complete (some "user_sess") told

abbrev steps : List Client
steps = client complete ∷ client result ∷ []

through-Reach : Reach database assets steps through
through-Reach =
    moves (client complete)
      (moves (client result) (validates (some "user_sess") (arrives arrived refl refl)) answered)
      finished

passes : (auth_session database (some "user_sess") through).0 ≡ result_ok
unfolding auth_session
passes = refl

admitted_by_database_example : (p : Client) × Memᴰ p steps × Answer database "user_sess" p
admitted_by_database_example =
    admitted_by_database database assets steps through "user_sess" through-Reach passes

clients_balance_example : opened through.calls ≡ closed through.calls + held through.state
clients_balance_example = clients_balance database assets steps through through-Reach

abbrev broken : Request Client
broken = in_state error (some "user_sess") told

abbrev posted : Request Client
posted = record arrived { method = method_post }
