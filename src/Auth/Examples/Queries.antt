-- ===== src/Auth/Examples/Queries.antt =====
-- The theorems on the query machine of auth2/src/auth2.c at one query.
use kore_io_websocket.Base.{List, ◌≡◌, refl, [], ◌∷◌, some}
use kore_io_websocket.Auth.Request.{kore_strdup, Call, kore_pgsql_init, http_state_create, init}
use kore_io_websocket.Auth.Machine.{req_init, req_query, state_continue, Rstate, Machine, turn}
use kore_io_websocket.Auth.Machine.Runs.{starts, AfterTurn, machine_turns}
use kore_io_websocket.Auth.Examples.{Client, database, assets, client}

abbrev query : Rstate Client
query = record { query = "select*from coders"; q_name = "db"; sql = client init }

abbrev opening : List Call
opening =
    kore_pgsql_init ∷ kore_strdup "db" ∷ kore_strdup "select*from coders" ∷ http_state_create ∷ []

abbrev started : Machine Client
started = record { fsm_state = req_init; state = some query; calls = opening }

abbrev connected : Machine Client
connected = record {
  fsm_state = req_query;
  state = some (record query { sql = record (client init) { name = "db" } });
  calls = opening;
}

first_turn : turn database assets started ≡ some (state_continue, connected)
unfolding turn
first_turn = refl

machine_turns_example : AfterTurn database assets state_continue started connected
machine_turns_example =
    machine_turns database assets started connected state_continue (starts query) first_turn
