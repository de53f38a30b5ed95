-- ===== src/Jobs/Callbacks.antt =====
-- websocket_13/src/websocket_13.c, the callback of every client of the database.
use text.Mathlib.Text.{◌==◌ as str_eq}
use kore_io_websocket.Base.{ℕ, zero, suc, [], ◌∷◌, String, Option, none, some, ◌==◌, if◌then◌else◌}
use kore_io_websocket.Auth.Request.{
  PgState, init, wait, result, done, error, complete, commandok, notify, other_state,
}
use kore_io_websocket.Jobs.Database.{Database}
use kore_io_websocket.Jobs.{
  World, Handle, Arg, to_nothing, to_boss, to_connection, no_job, q_fucker, q_subscribe,
  q_on_boss_job_fail, is_event, kore_pgsql_logerror, kore_pgsql_continue, kore_pgsql_cleanup,
  kore_websocket_send, kore_websocket_broadcast, kore_strdup, kore_free, called, store, load,
}
use kore_io_websocket.Jobs.Sending.{boss_done}

module _ {Pg : Type 0} where
  -- The job that was worked on is freed.
  unfoldable pub forget_job : Arg → World Pg → Option (World Pg)
  forget_job to_nothing w = none
  forget_job (to_connection c) w = none
  forget_job to_boss w = some (
      called (kore_free w.boss.jobid ∷ kore_free w.boss.name ∷ kore_free w.boss.content ∷ [])
        (record w { boss = no_job }))

  unfoldable pub keep_job : String → String → String → Arg → World Pg → Option (World Pg)
  keep_job jobid name content to_nothing w = none
  keep_job jobid name content (to_connection c) w = none
  keep_job jobid name content to_boss w = some (
      called (kore_strdup jobid ∷ kore_strdup name ∷ kore_strdup content ∷ []) (record w {
        boss = record { jobid = some jobid; name = some name; content = some content };
      }))

  unfoldable pub and_then : Option (World Pg) → (World Pg → Option (World Pg)) → Option (World Pg)
  and_then none k = none
  and_then (some w) k = k w

module _ (D : Database) (command : String) where
  open D use {Pg, state, conn_name, notify_extra, continue_query, cleanup, ntuples, getvalue}

  unfoldable pub on_db_cb_done : Handle Pg → World Pg → Option (World Pg)
  unfolding forget_job
  on_db_cb_done h w = if str_eq (conn_name h.pg) q_subscribe then forget_job h.arg w else some w

  unfoldable pub go_on : ℕ → Handle Pg → World Pg → World Pg
  go_on a h w =
      called (kore_pgsql_continue a ∷ []) (store a (some (record h { pg = continue_query h.pg })) w)

  unfoldable pub on_done : ℕ → Handle Pg → World Pg → Option (World Pg)
  unfolding go_on on_db_cb_done and_then
  on_done a h w =
      if str_eq (conn_name h.pg) q_fucker
      then some w
      else and_then (on_db_cb_done h w) (λ (v : World Pg). some (go_on a h v))

  -- A job is taken from a result of one row; `new` is memory for the report.
  unfoldable pub subscribed : ℕ → Handle Pg → World Pg → Option (World Pg)
  unfolding boss_done keep_job and_then
  subscribed new h w =
      if ntuples h.pg == 1
      then and_then (boss_done D command new (some (getvalue h.pg 0 0)) w)
          (keep_job (getvalue h.pg 0 0) (getvalue h.pg 0 1) (getvalue h.pg 0 2) h.arg)
      else some w

  -- `for (i = 0; i < rows; i++) name = …`, over a variable that starts with no value
  unfoldable pub last_value : Pg → ℕ → Option String
  last_value p zero = none
  last_value p (suc rows) = some (getvalue p rows 0)

  unfoldable pub send_back : Arg → Option String → World Pg → Option (World Pg)
  send_back (to_connection c) (some text) w = some (called (kore_websocket_send c 1 text ∷ []) w)
  send_back (to_connection c) none w = none
  send_back to_nothing text w = none
  send_back to_boss text w = none

  unfoldable pub db_results : ℕ → Handle Pg → World Pg → Option (World Pg)
  unfolding subscribed send_back last_value
  db_results new h w =
      if str_eq q_subscribe (conn_name h.pg)
      then subscribed new h w
      else if str_eq q_on_boss_job_fail (conn_name h.pg)
      then some w
      else if is_event (conn_name h.pg)
      then some w
      else send_back h.arg (last_value h.pg (ntuples h.pg)) w

  -- The `switch`.
  unfoldable pub by_state : PgState → ℕ → ℕ → Handle Pg → World Pg → Option (World Pg)
  unfolding on_done db_results go_on
  by_state init new a h w = some w
  by_state wait new a h w = some w
  by_state done new a h w = on_done a h w
  by_state commandok new a h w = some w
  by_state notify new a h w =
      some (called (kore_websocket_broadcast 1 (notify_extra h.pg) 4 ∷ []) w)
  by_state complete new a h w =
      some (called (kore_pgsql_cleanup a ∷ []) (store a (some (record h { pg = cleanup h.pg })) w))
  by_state error new a h w = some (called (kore_pgsql_logerror a ∷ []) w)
  by_state result new a h w = db_results new h w
  by_state other_state new a h w = some (go_on a h w)

  unfoldable pub on_client : Option (Handle Pg) → ℕ → ℕ → World Pg → Option (World Pg)
  unfolding by_state
  on_client none new a w = none
  on_client (some h) new a w = by_state (state h.pg) new a h w

  unfoldable pub db_state_change : ℕ → ℕ → World Pg → Option (World Pg)
  unfolding on_client
  db_state_change new a w = on_client (load a w) new a w
