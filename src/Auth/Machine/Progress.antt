-- ===== src/Auth/Machine/Progress.antt =====
-- The query machine of auth2/src/auth2.c comes to its answer, if the database does.
use kore_io_websocket.Base.{ℕ, suc, ◌≡◌, List, some}
use kore_io_websocket.Auth.Request.{result, complete, Pgsql, Call}
use kore_io_websocket.Auth.Pages.{Assets}
use kore_io_websocket.Auth.Machine.{
  req_db_wait, req_db_read, req_done, state_continue, Rstate, Machine, turn,
}

module _ (K : Pgsql) (A : Assets) where
  -- `n` turns in a row after which the next handler is called at once.
  pub data Chain : ℕ → Machine K.Pg → Machine K.Pg → Type 0 where
    here : {m : Machine K.Pg} → Chain 0 m m
    next :
        {n : ℕ} {m m' m'' : Machine K.Pg}
        → turn K A m ≡ some (state_continue, m')
        → Chain n m' m''
        → Chain (suc n) m m''

  -- The client `p` has `n` sets of rows to be read, and is through then.
  pub data Delivers : ℕ → K.Pg → Type 0 where
    through : {p : K.Pg} → K.state p ≡ complete → Delivers 0 p
    rows :
        {n : ℕ} {p : K.Pg}
        → K.state p ≡ result
        → Delivers n (K.continue_query p)
        → Delivers (suc n) p

  abbrev pub waiting_with : K.Pg → Rstate K.Pg → List Call → Machine K.Pg
  waiting_with p st cs = record {
    fsm_state = req_db_wait;
    state = some (record st { sql = p });
    calls = cs;
  }

  abbrev pub done_with : K.Pg → Rstate K.Pg → List Call → Machine K.Pg
  done_with p st cs = record (waiting_with p st cs) { fsm_state = req_done }

  abbrev reading_with : K.Pg → Rstate K.Pg → List Call → Machine K.Pg
  reading_with p st cs = record (waiting_with p st cs) { fsm_state = req_db_read }
