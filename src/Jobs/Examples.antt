-- ===== src/Jobs/Examples.antt =====
-- A database for the tests of websocket_13/src/websocket_13.c, and its theorems at one worker.
use kore_io_websocket.Base.{
  ℕ, zero, suc, ◌≡◌, ◌≢◌, refl, inl, inr, List, [], ◌∷◌, true, String, none, some, length, arith,
  Bool-cases, ◌==◌, if◌then◌else◌,
}
use kore_io_websocket.Auth.Request.{PgState, init, wait, result, done, complete}
use kore_io_websocket.Jobs.Database.{Database}
use kore_io_websocket.Jobs.{
  World, to_nothing, to_boss, to_connection, no_job, kore_pgsql_cleanup, kore_free_client, update,
}
use kore_io_websocket.Jobs.Callbacks.{db_state_change}
use kore_io_websocket.Jobs.Connections.{websocket_disconnect, connection_del, set_extra}
use kore_io_websocket.Jobs.Reports.{report_client_lost}
use kore_io_websocket.Jobs.Replies.{leaving_frees_once}
use kore_io_websocket.Jobs.System.{Event, Kept, ticks, calls_back, connects, says, leaves}
use kore_io_websocket.Jobs.Worker.{Worker}

abbrev Row : Type 0
Row = String × (String × String)

record Client : Type 0 where
  at : PgState
  name : String
  rows : List Row

abbrev row : List Row → ℕ → Row
row [] i = ("", ("", ""))
row (r ∷ rs) zero = r
row (r ∷ rs) (suc i) = row rs i

abbrev column : ℕ → Row → String
column zero r = r.0
column (suc zero) r = r.1.0
column (suc (suc i)) r = r.1.1

abbrev database : Database
database = record {
  Pg = Client;
  state = λ (c : Client). c.at;
  conn_name = λ (c : Client). c.name;
  notify_extra = λ (c : Client). "";
  fresh = record { at = init; name = ""; rows = [] };
  setup = λ (c : Client) name. (record c { name = name }, true);
  query = λ (c : Client) text. (record c { at = wait }, true);
  query_params = λ (c : Client) text v w. (record c { at = wait }, true);
  continue_query = λ (c : Client). record c { at = complete };
  cleanup = λ (c : Client). record c { at = init };
  ntuples = λ (c : Client). length c.rows;
  getvalue = λ (c : Client) i j. column j (row c.rows i);
}

abbrev on : String → PgState → List Row → Client
on name s rows = record { at = s; name = name; rows = rows }

-- The client of the poll is at 1, that of the websocket 7 at 2, that of a report at 3, the listener at 9.
abbrev working : World Client
working = record {
  handles =
      update
        (update
          (update
            (update (λ a. none) 1
              (some (record {
                pg = on "subscribe" result (("4", ("jobbi", "{}")) ∷ []);
                arg = to_boss;
              })))
            2
            (some
              (record { pg = on "db" result (("Linux", ("", "")) ∷ []); arg = to_connection 7 })))
          3 (some (record { pg = on "job_fails" complete []; arg = to_nothing })))
        9 (some (record { pg = on "fucker" wait []; arg = to_nothing }));
  hdlr_extra = update (λ c. 0) 7 2;
  boss = no_job;
  trace = [];
}

working-Kept : Kept database 1 9 working
working-Kept = record {
  poll_handle = record { pg = on "subscribe" result (("4", ("jobbi", "{}")) ∷ []); arg = to_boss };
  polled = refl;
  for_boss = refl;
  listening = (record { pg = on "fucker" wait []; arg = to_nothing }, refl, refl);
  linked = λ c n. elim (Bool-cases (7 == c)) [
    | inl here ↦ (
      record { pg = on "db" result (("Linux", ("", "")) ∷ []); arg = to_connection 7 },
      ground arith,
      ground arith,
    )
    | inr other ↦ absurd (ground arith)
  ];
  balanced = refl;
}

abbrev job : Client
job = on "subscribe" result (("4", ("jobbi", "{}")) ∷ [])

-- A websocket opens, speaks and leaves while the poll brings a job and ends.
abbrev events : List (Event Client)
events =
    ticks
    ∷ connects 8 4
    ∷ calls_back 5 1 job
    ∷ says 8 1 "hello"
    ∷ calls_back 6 1 (on "subscribe" done [])
    ∷ leaves 8
    ∷ []

report_client_lost_example :
    (v : World Client) × (db_state_change database "report" 6 3 working ≡ some v)
    × (v.trace ≡ kore_pgsql_cleanup 3 ∷ [])
    × (v.handles 3 ≡ some (record { pg = on "job_fails" init []; arg = to_nothing }))
    × (◌≢◌ {A = ℕ} 3 1)
    × (◌≢◌ {A = ℕ} 3 9)
    × ((c : ℕ) → v.hdlr_extra c ≢ 3)
report_client_lost_example =
    report_client_lost database "report" 1 9 6 3 (on "job_fails" complete []) working working-Kept
      (omega arith) refl refl

leaving_frees_once_example :
    (v : World Client) × (websocket_disconnect database 7 working ≡ some v)
    × (v.trace ≡ kore_free_client 2 ∷ kore_pgsql_cleanup 2 ∷ [])
    × ((a : ℕ) → v.handles a ≡ (if 2 == a then none else working.handles a))
    × (v.hdlr_extra 7 ≡ 0)
    × (connection_del database 7 v ≡ some (set_extra database 7 0 v))
leaving_frees_once_example =
    leaving_frees_once database "report" 1 9 7 working working-Kept (omega arith)
