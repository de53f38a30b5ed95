-- ===== src/Auth1/Examples.antt =====
-- The theorems on auth1/src/auth1.c at one request.
use kore_io_websocket.Base.{suc, ◌≡◌, refl, [], ◌∷◌, some, none}
use kore_io_websocket.Auth.Request.{
  complete, method_get, KoreResult, result_ok, result_retry, Request, kore_pgsql_init,
  http_state_create, kore_strdup,
}
use kore_io_websocket.Auth.Session.Balance.{opened, closed}
use kore_io_websocket.Auth.Machine.{Machine}
use kore_io_websocket.Auth.Examples.{Client, database, assets, client}
use kore_io_websocket.Auth1.{auth_session, dashboard}
use kore_io_websocket.Auth1.Leaks.{dashboard_leaks_client}

abbrev known : Request Client
known = record {
  method = method_get;
  hicookie = some "user_sess";
  user = none;
  passphrase = none;
  state = some (record { result_name = some "user_sess"; mu = 4; p = client complete });
  calls = kore_strdup "user_sess" ∷ kore_pgsql_init ∷ http_state_create ∷ [];
}

passes : (auth_session database (some "user_sess") known).0 ≡ result_ok
unfolding auth_session
passes = refl

dashboard_leaks_client_example :
    let served = (dashboard assets (auth_session database (some "user_sess") known).1).1 in
    (served.state ≡ none) × (opened served.calls ≡ suc (closed served.calls))
dashboard_leaks_client_example =
    dashboard_leaks_client database assets "user_sess" known refl refl passes

-- A loop that gives up at once.
abbrev idle : Machine Client → KoreResult × Machine Client
idle m = (result_retry, m)
