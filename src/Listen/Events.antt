-- ===== src/Listen/Events.antt =====
-- What happens to a worker of websocket_12, and what is to be written to its websockets.
use kore_io_websocket.Base.{
  ℕ, zero, List, [], ◌∷◌, ◌++◌, Bool, true, false, String, Option, none, some, if◌then◌else◌,
}
use kore_io_websocket.Auth.Request.{PgState, result, notify}
use kore_io_websocket.Jobs.Database.{Database}
use kore_io_websocket.Listen.{
  listener, shared, Call, kore_pgsql_register, kore_pgsql_init, kore_pgsql_logerror,
  kore_pgsql_continue, kore_pgsql_setup, kore_pgsql_query, kore_websocket_broadcast,
  kore_websocket_send, Worker, set_client, db_state_change, db_state_change2, last_row,
  websocket_connect, websocket_message, websocket_disconnect,
}

-- What Kore and the database do: a websocket that comes, speaks or goes, and a client of the database
-- whose callback is called, after the library has left it as `p`.
pub data Event (Pg : Type 0) : Type 0 where
  connect disconnect : ℕ → Event Pg
  message : ℕ → ℕ → String → Event Pg
  listener_calls shared_calls : Pg → Event Pg

-- What is written to websockets: to one, or to all.
pub data Sent : Type 0 where
  to_one : ℕ → ℕ → String → Sent
  to_all : String → Sent

abbrev pub sent_by : Call → List Sent
sent_by (kore_websocket_broadcast op text scope) = to_all text ∷ []
sent_by (kore_websocket_send c op text) = to_one c op text ∷ []
sent_by (kore_pgsql_register n s) = []
sent_by (kore_pgsql_init k) = []
sent_by (kore_pgsql_logerror k) = []
sent_by (kore_pgsql_continue k) = []
sent_by (kore_pgsql_setup k n) = []
sent_by (kore_pgsql_query k t) = []

abbrev pub sent : List Call → List Sent
sent [] = []
sent (x ∷ xs) = sent_by x ++ sent xs

module _ (D : Database) where
  open D use {Pg, state, notify_extra, ntuples, getvalue}

  unfoldable pub step : Event Pg → Worker Pg → Option (Worker Pg)
  step (connect c) w = some (websocket_connect D w)
  step (disconnect c) w = some (websocket_disconnect D w)
  step (message c op text) w = some (websocket_message D c op text w)
  step (listener_calls p) w = some (db_state_change D (state p) p (set_client listener p w))
  step (shared_calls p) w = db_state_change2 D (state p) p (set_client shared p w)

  unfoldable pub run : List (Event Pg) → Worker Pg → Option (Worker Pg)
  run [] w = some w
  run (e ∷ es) w = elim (step e w) [ none ↦ none | some w' ↦ run es w' ]

  -- What is to be written: a message goes back to its sender, and a notification and the last row of a
  -- result of the shared client go to all.
  abbrev pub news : PgState → Pg → Bool → List Sent
  news notify p b = to_all (notify_extra p) ∷ []
  news result p true = elim (last_row D p (ntuples p)) [ none ↦ [] | some name ↦ to_all name ∷ [] ]
  news _ p b = []

  abbrev pub due : Event Pg → List Sent
  due (connect c) = []
  due (disconnect c) = []
  due (message c op text) = to_one c op text ∷ []
  due (listener_calls p) = news (state p) p false
  due (shared_calls p) = news (state p) p true

  abbrev pub all_due : List (Event Pg) → List Sent
  all_due [] = []
  all_due (e ∷ es) = due e ++ all_due es

  -- A result of the shared client without rows.
  abbrev pub is_empty_result : PgState → ℕ → Bool
  is_empty_result result zero = true
  is_empty_result _ rows = false

  abbrev pub reads_unset : Event Pg → Bool
  reads_unset (shared_calls p) = is_empty_result (state p) (ntuples p)
  reads_unset _ = false

  abbrev pub any_reads_unset : List (Event Pg) → Bool
  any_reads_unset [] = false
  any_reads_unset (e ∷ es) = if reads_unset e then true else any_reads_unset es
