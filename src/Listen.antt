-- ===== src/Listen.antt =====
-- websocket_12/src/websocket_12.c: a worker that listens to notifications of a database, and one client
-- of the database that all its websockets share. Its page is the text that websocket_13 has
-- (Jobs/Worker). `none` is a read of a variable that was not set.
pub mod Events
pub mod Runs
mod Examples
use kore_io_websocket.Base.{
  ℕ, zero, suc, List, [], ◌∷◌, ◌++◌, Bool, true, false, String, Option, none, some, if◌then◌else◌,
}
use kore_io_websocket.Auth.Request.{
  PgState, init, wait, result, done, error, complete, commandok, notify, other_state,
}
use kore_io_websocket.Auth.Session.{is_init}
use kore_io_websocket.Jobs.Database.{Database}

-- The client that listens, and `pgsql2`.
pub data Client : Type 0 where
  listener shared : Client

pub data Call : Type 0 where
  kore_pgsql_register : String → String → Call
  kore_pgsql_init kore_pgsql_logerror kore_pgsql_continue : Client → Call
  kore_pgsql_setup kore_pgsql_query : Client → String → Call
  kore_websocket_broadcast : ℕ → String → ℕ → Call
  kore_websocket_send : ℕ → ℕ → String → Call

-- The two clients, `pgsql2->arg`, the counter `ok`, and the calls in their order.
pub record Worker (Pg : Type 0) : Type 0 where
  pub pgsql : Pg
  pub pgsql2 : Option Pg
  pub arg : ℕ
  pub ok : ℕ
  pub calls : List Call

module _ {Pg : Type 0} where
  abbrev pub called : List Call → Worker Pg → Worker Pg
  called cs w = record w { calls = w.calls ++ cs }

  abbrev pub set_client : Client → Pg → Worker Pg → Worker Pg
  set_client listener p w = record w { pgsql = p }
  set_client shared p w = record w { pgsql2 = some p }

module _ (D : Database) where
  open D use {Pg, state, notify_extra, fresh, setup, query, continue_query, ntuples, getvalue}

  asked : Client → String → Pg × Bool → Worker Pg → Worker Pg
  asked k text (p, true) w = called (kore_pgsql_query k text ∷ []) (set_client k p w)
  asked k text (p, false) w =
      called (kore_pgsql_query k text ∷ kore_pgsql_logerror k ∷ []) (set_client k p w)

  -- Without a connection the query is not made; whether a client waits for one or failed, it is kept.
  opened : Client → String → Pg × Bool → Worker Pg → Worker Pg
  unfolding asked
  opened k text (p, true) w = asked k text (query p text) w
  opened k text (p, false) w =
      if is_init (state p)
      then set_client k p w
      else called (kore_pgsql_logerror k ∷ []) (set_client k p w)

  -- `db_query` for the listener and `db_query2` for the client of the websockets
  unfoldable pub db_query : Client → String → Pg → Worker Pg → Worker Pg
  unfolding opened
  db_query k text p w = opened k text (setup p "db") (called (kore_pgsql_setup k "db" ∷ []) w)

  -- The client that listens is allocated and registered, and the websockets have none yet.
  abbrev pub prepared : Worker Pg
  prepared = record {
    pgsql = fresh;
    pgsql2 = none;
    arg = 0;
    ok = 0;
    calls =
        kore_pgsql_register "db" "dbname=postgres"
        ∷ kore_pgsql_register "dba" "dbname=postgres"
        ∷ kore_pgsql_init listener
        ∷ [];
  }

  -- `init`, when the module is loaded.
  unfoldable pub start : Worker Pg
  unfolding db_query
  start =
      let heard = db_query listener "LISTEN revents;LISTEN on_coders" fresh prepared in
      called (kore_pgsql_init shared ∷ []) (record heard { pgsql2 = some fresh; arg = 2 })

  unfoldable pub go_on : Client → Pg → Worker Pg → Worker Pg
  go_on k p w = called (kore_pgsql_continue k ∷ []) (set_client k (continue_query p) w)

  unfoldable pub on_notify : Pg → Worker Pg → Worker Pg
  on_notify p w = called (kore_websocket_broadcast 1 (notify_extra p) 4 ∷ []) w

  -- `db_state_change`, the callback of the listener
  unfoldable pub db_state_change : PgState → Pg → Worker Pg → Worker Pg
  unfolding go_on on_notify
  db_state_change init p w = w
  db_state_change wait p w = w
  db_state_change done p w = go_on listener p (record w { ok = suc w.ok })
  db_state_change notify p w = on_notify p w
  db_state_change complete p w = w
  db_state_change error p w = called (kore_pgsql_logerror listener ∷ []) w
  db_state_change result p w = w
  db_state_change commandok p w = go_on listener p w
  db_state_change other_state p w = go_on listener p w

  -- `for(i=0;i<rows;i++) name=…`, over a variable that starts with no value
  unfoldable pub last_row : Pg → ℕ → Option String
  last_row p zero = none
  last_row p (suc rows) = some (getvalue p rows 0)

  shown : Pg → Option String → Worker Pg → Option (Worker Pg)
  unfolding go_on
  shown p none w = none
  shown p (some name) w = some (go_on shared p (called (kore_websocket_broadcast 1 name 4 ∷ []) w))

  unfoldable pub db_results2 : Pg → Worker Pg → Option (Worker Pg)
  unfolding last_row shown
  db_results2 p w = shown p (last_row p (ntuples p)) w

  -- `db_state_change2`, the callback of `pgsql2`
  unfoldable pub db_state_change2 : PgState → Pg → Worker Pg → Option (Worker Pg)
  unfolding go_on on_notify db_results2
  db_state_change2 init p w = some w
  db_state_change2 wait p w = some w
  db_state_change2 done p w = some (go_on shared p w)
  db_state_change2 notify p w = some (on_notify p w)
  db_state_change2 complete p w = some w
  db_state_change2 error p w = some (called (kore_pgsql_logerror shared ∷ []) w)
  db_state_change2 result p w = db_results2 p w
  db_state_change2 commandok p w = some (go_on shared p w)
  db_state_change2 other_state p w = some (go_on shared p w)

  -- `if(pgsql2 !=NULL)`
  unfoldable pub ask_shared : ℕ → String → Option Pg → Worker Pg → Worker Pg
  unfolding db_query
  ask_shared n text none w = w
  ask_shared n text (some p) w = db_query shared text p (record w { arg = n })

  unfoldable pub websocket_connect : Worker Pg → Worker Pg
  unfolding ask_shared
  websocket_connect w = ask_shared 889 "update banners set alt='Chikago'" w.pgsql2 w

  unfoldable pub websocket_message : ℕ → ℕ → String → Worker Pg → Worker Pg
  unfolding ask_shared
  websocket_message c op text w =
      called (kore_websocket_send c op text ∷ [])
        (ask_shared 888 "update banners set alt='Afrika'" w.pgsql2 w)

  unfoldable pub websocket_disconnect : Worker Pg → Worker Pg
  websocket_disconnect w = w
