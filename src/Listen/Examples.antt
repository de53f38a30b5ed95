-- ===== src/Listen/Examples.antt =====
-- The theorem on websocket_12 at a database that answers every query.
use kore_io_websocket.Base.{ℕ, List, [], ◌∷◌, true, String}
use kore_io_websocket.Auth.Request.{PgState, init, wait, complete, notify, result}
use kore_io_websocket.Jobs.Database.{Database}
use kore_io_websocket.Listen.Events.{Event, connect, message, listener_calls, shared_calls}

record Client : Type 0 where
  pub at : PgState
  pub text : String
  pub rows : ℕ

abbrev database : Database
database = record {
  Pg = Client;
  state = λ (c : Client). c.at;
  conn_name = λ (c : Client). "db";
  notify_extra = λ (c : Client). c.text;
  fresh = record { at = init; text = ""; rows = 0 };
  setup = λ (c : Client) name. (c, true);
  query = λ (c : Client) text. (record c { at = wait }, true);
  query_params = λ (c : Client) text v w. (record c { at = wait }, true);
  continue_query = λ (c : Client). record c { at = complete };
  cleanup = λ (c : Client). record c { at = init };
  ntuples = λ (c : Client). c.rows;
  getvalue = λ (c : Client) i j. c.text;
}

abbrev events : List (Event Client)
events =
    connect 1
    ∷ message 1 1 "hi"
    ∷ listener_calls (record { at = notify; text = "new"; rows = 0 })
    ∷ shared_calls (record { at = result; text = "row"; rows = 2 })
    ∷ []
