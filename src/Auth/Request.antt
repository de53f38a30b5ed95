-- ===== src/Auth/Request.antt =====
-- A request of auth2/src/auth2.c with what Kore keeps for it, and Kore's pgsql client, which is copied
-- from a library (auth2/pgsql.c): the client is a type `Pg` with its calls, and what a call may change
-- in it.
use kore_io_websocket.Base.{ℕ, List, [], ◌∷◌, ◌++◌, Bool, String, Option, none, some}

-- The values of `KORE_PGSQL_STATE_…`; `other_state` is what falls under `default`.
pub data PgState : Type 0 where
  init wait result done error complete commandok notify other_state : PgState

pub record Pgsql : Type 1 where
  pub Pg : Type 0
  pub state : Pg → PgState
  -- p->conn->name
  pub conn_name : Pg → String
  -- p->error
  pub error_text : Pg → String
  -- kore_pgsql_init, over zeroed memory
  pub fresh : Pg
  -- kore_pgsql_setup(p, name, KORE_PGSQL_ASYNC)
  pub setup : Pg → String → Pg × Bool
  -- kore_pgsql_v_query_params(p, text, result, count, value, …)
  pub query_params : Pg → String → ℕ → ℕ → String → Pg × Bool
  -- kore_pgsql_query
  pub query : Pg → String → Pg × Bool
  -- kore_pgsql_continue
  pub continue_query : Pg → Pg
  pub ntuples : Pg → ℕ
  -- kore_pgsql_getvalue(p, row, 0)
  pub getvalue : Pg → ℕ → String

pub data Method : Type 0 where
  method_get method_post method_other : Method

-- What validators and handlers return.
pub data KoreResult : Type 0 where
  result_ok result_error result_retry : KoreResult

-- The calls to Kore that a request has made.
pub data Call : Type 0 where
  http_response_header : String → String → Call
  http_response : ℕ → Option String → Call
  http_response_cookie : String → String → String → Call
  cookie_flags_cleared : Call
  http_state_create : Call
  http_state_cleanup : Call
  kore_pgsql_init : Call
  kore_pgsql_cleanup : Call
  kore_pgsql_logerror : Call
  kore_strdup : String → Call
  kore_free : Call
  http_request_wakeup : Call
  http_request_sleep : Call

-- struct ustate; `mu` is the union, whose two members are one memory.
pub record Ustate (Pg : Type 0) : Type 0 where
  pub result_name : Option String
  pub mu : ℕ
  pub p : Pg

-- `state` is what `http_state_get` gives; `hicookie`, `user`, `passphrase` are what the request
-- carries under these names.
pub record Request (Pg : Type 0) : Type 0 where
  pub method : Method
  pub hicookie : Option String
  pub user : Option String
  pub passphrase : Option String
  pub state : Option (Ustate Pg)
  pub calls : List Call

module _ {Pg : Type 0} where
  -- The latest call stands first.
  abbrev pub called : List Call → Request Pg → Request Pg
  called cs r = record r { calls = cs ++ r.calls }

  abbrev pub set_state : Option (Ustate Pg) → Request Pg → Request Pg
  set_state s r = record r { state = s }

  -- kore_pgsql_cleanup(&state->p); http_state_cleanup(req);
  abbrev pub clean_up : Request Pg → Request Pg
  clean_up r = called (http_state_cleanup ∷ kore_pgsql_cleanup ∷ []) (set_state none r)

  -- kore_free(state->result_name), where it is not NULL
  abbrev pub free_name : Option String → Request Pg → Request Pg
  free_name none r = r
  free_name (some name) r = called (kore_free ∷ []) r
