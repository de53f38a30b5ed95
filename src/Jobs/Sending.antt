-- ===== src/Jobs/Sending.antt =====
-- websocket_13/src/websocket_13.c, what is sent to the database: `db_query`, `db_query_params`, the poll
-- of `tick` and the report of `boss_job_complete`.
use kore_io_websocket.Base.{
  ℕ, List, [], ◌∷◌, Bool, true, false, String, Option, none, some, ◌==◌, if◌then◌else◌,
}
use kore_io_websocket.Auth.Session.{is_init}
use kore_io_websocket.Jobs.Database.{Database}
use kore_io_websocket.Jobs.{
  World, Handle, Call, kore_pgsql_init, kore_pgsql_setup, kore_pgsql_query, kore_pgsql_query_params,
  kore_pgsql_logerror, to_nothing, Arg, q_subscribe, q_on_boss_job_fail, braced, valued, called,
  store, load,
}

-- What a query leaves of the client, and the calls that it makes, in their order.
abbrev pub after_query : ℕ → Call → {Pg : Type 0} → Pg × Bool → Pg × List Call
after_query a call (p, true) = (p, call ∷ [])
after_query a call (p, false) = (p, call ∷ kore_pgsql_logerror a ∷ [])

module _ (D : Database) where
  open D use {Pg, state, fresh, setup, query, query_params}

  unfoldable pub after_setup : ℕ → String → (Pg → Pg × List Call) → Pg × Bool → Pg × List Call
  after_setup a name send (p, true) =
      let sent = send p in (sent.0, kore_pgsql_setup a name ∷ sent.1)
  after_setup a name send (p, false) =
      if is_init (state p)
      then (p, kore_pgsql_setup a name ∷ [])
      else (p, kore_pgsql_setup a name ∷ kore_pgsql_logerror a ∷ [])

  unfoldable pub on_handle :
      ℕ → (Pg → Pg × List Call) → Option (Handle Pg) → World Pg → Option (World Pg)
  on_handle a work none w = none
  on_handle a work (some h) w =
      let left = work h.pg in some (called left.1 (store a (some (record h { pg = left.0 })) w))

  unfoldable pub db_query : ℕ → String → String → World Pg → Option (World Pg)
  unfolding after_setup on_handle
  db_query a name text w =
      on_handle a
        (λ (p : Pg).
          after_setup a name (λ (q : Pg). after_query a (kore_pgsql_query a text) (query q text))
            (setup p name))
        (load a w) w

  unfoldable pub db_query_params :
      ℕ → String → String → String → String → World Pg → Option (World Pg)
  unfolding after_setup on_handle
  db_query_params a name text value₁ value₂ w =
      on_handle a
        (λ (p : Pg).
          after_setup a name
            (λ (q : Pg).
              after_query a (kore_pgsql_query_params a text value₁ value₂)
                (query_params q text value₁ value₂))
            (setup p name))
        (load a w) w

  -- `command` is the text of `das_nextJob_query`.
  unfoldable pub tick : String → ℕ → World Pg → Option (World Pg)
  unfolding db_query_params
  tick command poll w =
      if poll == 0 then some w else db_query_params poll q_subscribe command (braced "jobbi") "1" w

  abbrev pub with_client : ℕ → Arg → World Pg → World Pg
  with_client a arg w =
      called (kore_pgsql_init a ∷ []) (store a (some (record { pg = fresh; arg = arg })) w)

  -- `command` is what `completeJobsCommand` writes. Its format has a conversion that C does not
  -- define. `a` is what `kore_calloc` returns.
  unfoldable pub boss_job_complete : String → ℕ → String → String → World Pg → Option (World Pg)
  unfolding db_query_params
  boss_job_complete command a jobid success w =
      if a == 0
      then some w
      else db_query_params a q_on_boss_job_fail command (braced jobid) (valued success)
          (with_client a to_nothing w)

  unfoldable pub boss_done : String → ℕ → Option String → World Pg → Option (World Pg)
  unfolding boss_job_complete
  boss_done command a none w = some w
  boss_done command a (some jobid) w = boss_job_complete command a jobid "some success info" w
