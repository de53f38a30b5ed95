-- ===== src/Jobs/Worker/Lives.antt =====
-- The whole life of a worker of websocket_13, from `kore_worker_configure` to `han`.
use kore_io_websocket.Base.{ℕ, List, [], String, Option, none, some}
use kore_io_websocket.Jobs.Database.{Database}
use kore_io_websocket.Jobs.{World, no_job}
use kore_io_websocket.Jobs.System.{Event, run, AllAllowed}
use kore_io_websocket.Jobs.Worker.{Worker, kore_worker_configure, han}

module _ (D : Database) (listener poll : ℕ) where
  open D use {Pg}

  -- Memory before the start.
  abbrev pub empty : World Pg
  empty = record { handles = λ a. none; hdlr_extra = λ c. 0; boss = no_job; trace = [] }

  module _ (next_job report : String) where
    run_on : Worker Pg → List (Event Pg) → Option (Worker Pg)
    run_on k es = elim (run D next_job report k.pgsql1 es k.world) [
      | none ↦ none
      | some w ↦ han D (record k { world = w })
    ]

    -- The start, events, and the end.
    pub life : List (Event Pg) → Option (Worker Pg)
    unfolding run_on
    life es = elim (kore_worker_configure D listener poll empty) [
      | none ↦ none
      | some k ↦ run_on k es
    ]

    unfoldable pub AllowedLife : List (Event Pg) → Type 0
    AllowedLife es = elim (kore_worker_configure D listener poll empty) [
      | none ↦ Unit
      | some k ↦ AllAllowed D next_job report k.pgsql1 es k.world
    ]
