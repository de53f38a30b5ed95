-- ===== src/Auth1/Leaks.antt =====
-- Sessions of auth1/src/auth1.c: who passes, and what the dashboard leaves open.
use kore_io_websocket.Base.{suc, ◌+◌, ◌≡◌, refl, [], ◌∷◌, String, none, some, arith}
use kore_io_websocket.Auth.Request.{
  kore_strdup, Pgsql, method_get, KoreResult, result_ok, Request, kore_pgsql_init,
  http_state_create,
}
use kore_io_websocket.Auth.Session.Balance.{opened, closed, held}
use kore_io_websocket.Auth.Pages.{Assets}
use kore_io_websocket.Auth.Machine.{req_init, HttpState, Rstate, Machine, turn}
use kore_io_websocket.Auth.Machine.Runs.{starts, AfterTurn, machine_total, machine_turns}
use kore_io_websocket.Auth1.{auth_session, dashboard, page}

module _ (K : Pgsql) where
  -- A session of auth1 that passes and then gets the dashboard: the state is gone, but one database
  -- client more was opened than closed.
  pub dashboard_leaks_client :
      (A : Assets) (cookie : String) (r : Request K.Pg)
      → opened r.calls ≡ closed r.calls + held r.state
      → r.method ≡ method_get
      → (auth_session K (some cookie) r).0 ≡ result_ok
      → let served = (dashboard A (auth_session K (some cookie) r).1).1 in
        (served.state ≡ none) × (opened served.calls ≡ suc (closed served.calls))
  unfolding auth_session dashboard
  dashboard_leaks_client A cookie r balanced get passed = (ground arith, ground arith)

  -- The page of auth1 hands a GET without state to `http_state_run` as a machine in a run: the first
  -- handler finds its state and returns, along an edge of the diagram and without an answer.
  pub page_starts :
      (A : Assets) (run : Machine K.Pg → KoreResult × Machine K.Pg)
      → (m : Machine K.Pg) × (page K run method_get
            (record { fsm_state = req_init; state = none; calls = [] })
          ≡ run m)
        × (v : HttpState) × (m' : Machine K.Pg) × (turn K A m ≡ some (v, m'))
        × AfterTurn K A v m m'
  unfolding page
  page_starts A run =
      let st : Rstate K.Pg = record {
        query = "select alt from banners where alt='user_sess'";
        q_name = "db";
        sql = K.fresh;
      } in
      let m : Machine K.Pg = record {
        fsm_state = req_init;
        state = some st;
        calls =
            kore_pgsql_init
            ∷ kore_strdup "db"
            ∷ kore_strdup "select alt from banners where alt='user_sess'"
            ∷ http_state_create
            ∷ [];
      } in
      let (v, m', e) = machine_total K A m (starts st) in
      (m, refl, v, m', e, machine_turns K A m m' v (starts st) e)
