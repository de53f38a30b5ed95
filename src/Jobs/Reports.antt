-- ===== src/Jobs/Reports.antt =====
-- A job of websocket_13/src/websocket_13.c, from its row in a result to the end of its report.
use text.Mathlib.Text.{◌==◌ as str_eq}
use kore_io_websocket.Base.{ℕ, ◌≡◌, ◌≢◌, refl, [], ◌∷◌, String, some, arith}
use kore_io_websocket.Auth.Request.{complete}
use kore_io_websocket.Jobs.Database.{Database}
use kore_io_websocket.Jobs.{
  World, Handle, to_nothing, to_boss, no_job, kore_pgsql_init, kore_pgsql_setup,
  kore_pgsql_query_params, kore_pgsql_cleanup, kore_pgsql_continue, kore_strdup, kore_free, called,
  q_on_boss_job_fail, braced, valued, store, load,
}
use kore_io_websocket.Jobs.Sending
use kore_io_websocket.Jobs.Callbacks.{db_state_change, by_state}
use kore_io_websocket.Jobs.System.{Kept}

module _ (D : Database) (report : String) where
  open D use {Pg, state, conn_name, ntuples, getvalue, setup, query_params, fresh}

  abbrev polling : Pg → Handle Pg
  polling p = record { pg = p; arg = to_boss }

  -- The world after the row was read.
  abbrev taken : ℕ → Pg → String → String → String → World Pg → World Pg
  taken new q' id name content w =
      called
        (kore_pgsql_init new
          ∷ kore_pgsql_setup new q_on_boss_job_fail
          ∷ kore_pgsql_query_params new report (braced id) (valued "some success info")
          ∷ kore_strdup id
          ∷ kore_strdup name
          ∷ kore_strdup content
          ∷ [])
        (record (store new (some (record { pg = q'; arg = to_nothing }))
          (store new (some (record { pg = fresh; arg = to_nothing })) w)) {
            boss = record { jobid = some id; name = some name; content = some content };
          })

  ended : ℕ → Pg → World Pg → World Pg
  ended poll d v =
      called
        (kore_free v.boss.jobid
          ∷ kore_free v.boss.name
          ∷ kore_free v.boss.content
          ∷ kore_pgsql_continue poll
          ∷ [])
        (store poll (some (polling (D.continue_query d))) (record v { boss = no_job }))

  -- A report is complete, while the worker keeps to its invariant: its client, which is not the
  -- listener, is cleaned up, and stays allocated although neither the timer nor a websocket points at it.
  pub report_client_lost :
      (poll listener new a : ℕ) (p : Pg) (w : World Pg)
      → Kept D poll listener w
      → a ≢ listener
      → load a w ≡ some (record { pg = p; arg = to_nothing })
      → state p ≡ complete
      → (v : World Pg) × (db_state_change D report new a w ≡ some v)
        × (v.trace ≡ kore_pgsql_cleanup a ∷ w.trace)
        × (v.handles a ≡ some (record { pg = D.cleanup p; arg = to_nothing }))
        × (a ≢ poll)
        × (a ≢ listener)
        × ((c : ℕ) → v.hdlr_extra c ≢ a)
  unfolding db_state_change by_state
  report_client_lost poll listener new a p w k n e s = (
    called (kore_pgsql_cleanup a ∷ [])
        (store a (some (record { pg = D.cleanup p; arg = to_nothing })) w),
    ground (arith, e, s),
    refl,
    ground arith,
    λ same. ground (arith, k.polled, k.for_boss),
    n,
    λ c same. ground (arith, k.linked c),
  )
