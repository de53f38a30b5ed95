-- ===== src/Jobs/Database.antt =====
-- Kore's pgsql client as websocket_13/src/websocket_13.c uses it, which is copied from Kore
-- (websocket_13/pgsql.c): a client is a value of `Pg`, and a call gives the client after it.
use kore_io_websocket.Base.{ℕ, Bool, String}
use kore_io_websocket.Auth.Request.{PgState}

pub record Database : Type 1 where
  pub Pg : Type 0
  pub state : Pg → PgState
  -- p->conn->name
  pub conn_name : Pg → String
  -- p->notify.extra
  pub notify_extra : Pg → String
  -- kore_pgsql_init, over zeroed memory
  pub fresh : Pg
  -- kore_pgsql_setup(p, name, KORE_PGSQL_ASYNC)
  pub setup : Pg → String → Pg × Bool
  pub query : Pg → String → Pg × Bool
  -- kore_pgsql_v_query_params(p, text, 0, 2, value, …, value, …)
  pub query_params : Pg → String → String → String → Pg × Bool
  pub continue_query : Pg → Pg
  pub cleanup : Pg → Pg
  pub ntuples : Pg → ℕ
  -- kore_pgsql_getvalue(p, row, column), which is never NULL
  pub getvalue : Pg → ℕ → ℕ → String
