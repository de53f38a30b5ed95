-- ===== src/Jobs.antt =====
-- websocket_13/src/websocket_13.c: a worker that polls pg-boss, a job queue in a database, and a query
-- for each websocket. A client of the database is memory at an address, with the argument of its
-- callback; `none` is a fault: a read through NULL or of memory that is not allocated, or of a variable
-- that was not set.
pub mod Database
pub mod Sending
pub mod Callbacks
pub mod Connections
pub mod Reports
pub mod Replies
pub mod Worker
pub mod System
mod Examples
use Prim.Native.String.{◌++◌ as text_append}
use text.Mathlib.Text.{◌==◌ as str_eq}
use kore_io_websocket.Base.{
  ℕ, zero, suc, ◌-◌, List, [], ◌∷◌, Bool, true, false, String, Option, none, some, ◌==◌,
  if◌then◌else◌,
}
use kore_io_websocket.Auth.Request.{
  PgState, init, wait, result, done, error, complete, commandok, notify, other_state,
}
use kore_io_websocket.Auth.Session.{is_init}

-- The calls that leave the program, with the addresses of clients and connections.
pub data Call : Type 0 where
  kore_pgsql_init : ℕ → Call
  kore_pgsql_setup : ℕ → String → Call
  kore_pgsql_query : ℕ → String → Call
  kore_pgsql_query_params : ℕ → String → String → String → Call
  kore_pgsql_logerror : ℕ → Call
  kore_pgsql_continue : ℕ → Call
  kore_pgsql_cleanup : ℕ → Call
  kore_websocket_send : ℕ → ℕ → String → Call
  kore_websocket_broadcast : ℕ → String → ℕ → Call
  kore_strdup : String → Call
  kore_free : Option String → Call
  kore_free_client : ℕ → Call

-- The argument of a callback: NULL, the job that is worked on, or a connection.
pub data Arg : Type 0 where
  to_nothing : Arg
  to_boss : Arg
  to_connection : ℕ → Arg

pub record Handle (Pg : Type 0) : Type 0 where
  pub pg : Pg
  pub arg : Arg

-- struct boss_fail; its field `data` is `content` here.
pub record BossFail : Type 0 where
  pub jobid : Option String
  pub name : Option String
  pub content : Option String

-- The latest call stands first.
pub record World (Pg : Type 0) : Type 0 where
  pub handles : ℕ → Option (Handle Pg)
  pub hdlr_extra : ℕ → ℕ
  pub boss : BossFail
  pub trace : List Call

abbrev pub update {ℓ} : {A : Type ℓ} → (ℕ → A) → ℕ → A → ℕ → A
update f p v q = if p == q then v else f q

abbrev pub q_name : String
q_name = "db"

abbrev pub q_fucker : String
q_fucker = "fucker"

abbrev pub q_subscribe : String
q_subscribe = "subscribe"

abbrev pub q_on_boss_job_fail : String
q_on_boss_job_fail = "job_fails"

abbrev pub is_event : String → Bool
is_event name =
    if str_eq name "q_event1"
    then true
    else if str_eq name "q_event2"
    then true
    else if str_eq name "q_event3"
    then true
    else str_eq name "q_event4"

abbrev pub no_job : BossFail
no_job = record { jobid = none; name = none; content = none }

-- kore_buf_appendf with "{\"%s\"}" and "{\"value\": \"%s\"}"
abbrev pub braced : String → String
braced text = text_append "{\"" (text_append text "\"}")

abbrev pub valued : String → String
valued text = text_append "{\"value\": \"" (text_append text "\"}")

module _ {Pg : Type 0} where
  abbrev pub called : List Call → World Pg → World Pg
  called [] w = w
  called (c ∷ cs) w = called cs (record w { trace = c ∷ w.trace })

  abbrev pub store : ℕ → Option (Handle Pg) → World Pg → World Pg
  store a h w = record w { handles = update w.handles a h }

  abbrev pub load : ℕ → World Pg → Option (Handle Pg)
  load a w = if a == 0 then none else w.handles a
