-- ===== src/Listen/Runs.antt =====
-- What a worker of websocket_12 has sent after any sequence of events.
use kore_io_websocket.Base.{◌≡◌, List, ◌++◌, Bool, true, false, Option, none, some}
use kore_io_websocket.Jobs.Database.{Database}
use kore_io_websocket.Listen.{Worker}
use kore_io_websocket.Listen.Events.{Sent, sent}

module _ (D : Database) where
  open D use {Pg, state, ntuples, getvalue}

  -- A step that reads the variable which was not set, or one that writes what is due.
  abbrev Does : Bool → List Sent → Worker Pg → Option (Worker Pg) → Type 0
  Does unset what w none = unset ≡ true
  Does unset what w (some v) = (unset ≡ false) × (sent v.calls ≡ sent w.calls ++ what)
