-- ===== src/Jobs/System/Callback.antt =====
-- What stays true when the library of the database calls back, state by state.
use text.Mathlib.Text.{◌==◌ as str_eq}
use kore_io_websocket.Base.{
  ℕ, ◌-◌, ap, ◌∙◌, ◌≡◌, refl, inl, inr, [], ◌∷◌, String, Option, none, some, ◌==◌, true, false,
  Bool-cases, arith,
}
use kore_io_websocket.Auth.Request.{
  PgState, init, wait, result, done, error, complete, commandok, notify, other_state,
}
use kore_io_websocket.Jobs.Database.{Database}
use kore_io_websocket.Jobs.{
  World, Handle, Arg, to_nothing, to_boss, to_connection, called, store, load, no_job, q_name,
  is_event, q_fucker, q_subscribe, q_on_boss_job_fail, valued, braced, kore_websocket_send,
  kore_websocket_broadcast, kore_pgsql_logerror, kore_pgsql_cleanup, kore_pgsql_continue, kore_free,
  kore_strdup,
}
use kore_io_websocket.Jobs.Sending.{with_client, boss_done, boss_job_complete}
use kore_io_websocket.Jobs.Callbacks.{
  by_state, and_then, go_on, on_done, forget_job, keep_job, subscribed, send_back, last_value,
  db_results, on_db_cb_done,
}
use kore_io_websocket.Jobs.System.{frees, one_if, held, Free, Proper, Kept}
use kore_io_websocket.Jobs.System.Touched.{db_query_params-Touches}
use kore_io_websocket.Jobs.System.Keeps.{ArgsStay, args_stay, stay-Kept, Touches-Kept, quiet-Kept}

frees-free : (o : Option String) → frees (kore_free o) ≡ one_if o
frees-free none = refl
frees-free (some text) = refl

-- The tests that the callback makes of the name of a connection.
module _ (n : String) where
  on_subscribe :
      n ≡ q_subscribe
      → (str_eq q_subscribe n ≡ true) × (str_eq n q_subscribe ≡ true) × (str_eq n q_fucker ≡ false)
  on_subscribe e = rw e (refl, refl, refl)

  on_job_fails :
      n ≡ q_on_boss_job_fail
      → (str_eq q_subscribe n ≡ false)
        × (str_eq q_on_boss_job_fail n ≡ true)
        × (str_eq n q_subscribe ≡ false)
        × (str_eq n q_fucker ≡ false)
  on_job_fails e = rw e (refl, refl, refl, refl)

  on_db :
      n ≡ q_name
      → (str_eq q_subscribe n ≡ false)
        × (str_eq q_on_boss_job_fail n ≡ false)
        × (is_event n ≡ false)
        × (str_eq n q_subscribe ≡ false)
        × (str_eq n q_fucker ≡ false)
  on_db e = rw e (refl, refl, refl, refl, refl)

  on_listener : n ≡ q_fucker → str_eq n q_fucker ≡ true
  on_listener e = rw e refl

module _ (D : Database) (poll listener : ℕ) (report : String) where
  open D use {Pg, state, conn_name, ntuples, getvalue}

  -- The client is changed by the library, or by a call of the callback.
  pub changed-Kept :
      (a : ℕ) (h : Handle Pg) (p : Pg) (w : World Pg)
      → load a w ≡ some h
      → Kept D poll listener w
      → Kept D poll listener (store a (some (record h { pg = p })) w)
  changed-Kept a h p w e k =
      let v = store a (some (record h { pg = p })) w in
      stay-Kept D poll listener w v
        (args_stay a h (record h { pg = p }) w v (ground arith) refl refl) refl k.balanced k

  goes_on-Kept :
      (a : ℕ) (h : Handle Pg) (w : World Pg)
      → load a w ≡ some h
      → Kept D poll listener w
      → Kept D poll listener (go_on D report a h w)
  unfolding go_on
  goes_on-Kept a h w e k =
      let v = store a (some (record h { pg = D.continue_query h.pg })) w in
      quiet-Kept D poll listener (kore_pgsql_continue a) v refl refl
        (changed-Kept a h (D.continue_query h.pg) w e k)

  forgotten : World Pg → World Pg
  forgotten w =
      called (kore_free w.boss.jobid ∷ kore_free w.boss.name ∷ kore_free w.boss.content ∷ [])
        (record w { boss = no_job })

  forgotten-Kept : (w : World Pg) → Kept D poll listener w → Kept D poll listener (forgotten w)
  unfolding forgotten
  forgotten-Kept w k =
      stay-Kept D poll listener w (forgotten w) (λ q g e. (g, e, refl)) refl
        (omega (
          arith,
          k.balanced,
          frees-free w.boss.jobid,
          frees-free w.boss.name,
          frees-free w.boss.content,
        ))
        k

  -- The report of a job leaves everything as it was but for its own client.
  report-Kept :
      (new : ℕ) (jobid : String) (w : World Pg)
      → Free D new w
      → Kept D poll listener w
      → (w' : World Pg) × (boss_done D report new (some jobid) w ≡ some w')
        × Kept D poll listener w'
        × (w'.boss ≡ w.boss)
  unfolding boss_done boss_job_complete
  report-Kept new jobid w (n, f) k =
      let h : Handle Pg = record { pg = D.fresh; arg = to_nothing } in
      let v = with_client D new to_nothing w in
      let stay : ArgsStay w v = λ q g e. (g, ground arith, refl) in
      let kv = stay-Kept D poll listener w v stay refl (omega (arith, k.balanced)) k in
      let loaded : load new v ≡ some h = ground arith in
      let (w', e, t) =
        db_query_params-Touches D new q_on_boss_job_fail report (braced jobid)
          (valued "some success info") h v loaded in
      (
        w',
        ground (arith, e),
        Touches-Kept D poll listener new h v w' loaded t kv,
        ground (arith, t.boss),
      )

  job_kept : String → String → String → World Pg → World Pg
  job_kept jobid name content w =
      called (kore_strdup jobid ∷ kore_strdup name ∷ kore_strdup content ∷ []) (record w {
        boss = record { jobid = some jobid; name = some name; content = some content };
      })

  job_kept-Kept :
      (jobid name content : String) (w : World Pg)
      → w.boss ≡ no_job
      → Kept D poll listener w
      → Kept D poll listener (job_kept jobid name content w)
  unfolding job_kept
  job_kept-Kept jobid name content w e k =
      stay-Kept D poll listener w (job_kept jobid name content w) (λ q g f. (g, f, refl)) refl
        (omega (arith, k.balanced, ap held e)) k

  abbrev pub Answered : PgState → ℕ → ℕ → Handle Pg → World Pg → Type 0
  Answered s new a h w =
      (w' : World Pg) × (by_state D report s new a h w ≡ some w') × Kept D poll listener w'

  module _ (new a : ℕ) (h : Handle Pg) (w : World Pg) (there : load a w ≡ some h)
      (k : Kept D poll listener w) where
    ends_job :
        h.arg ≡ to_boss
        → conn_name h.pg ≡ q_subscribe
        → by_state D report done new a h w ≡ some (go_on D report a h (forgotten w))
    unfolding by_state on_done on_db_cb_done forget_job and_then forgotten go_on
    ends_job e name = ground (arith, e, name, on_subscribe (conn_name h.pg) name)

    done-Kept : (arg : Arg) → h.arg ≡ arg → Proper D arg h.pg w → Answered done new a h w
    unfolding by_state on_done on_db_cb_done forget_job forgotten
    done-Kept to_boss e (name, one) =
        let v = forgotten w in
        (go_on D report a h v, ends_job e name, goes_on-Kept a h v there (forgotten-Kept w k))
    done-Kept to_nothing e (inl name) = (
      go_on D report a h w,
      ground (arith, e, on_job_fails (conn_name h.pg) name),
      goes_on-Kept a h w there k,
    )
    done-Kept to_nothing e (inr (name, n)) =
        (w, ground (arith, on_listener (conn_name h.pg) name), k)
    done-Kept (to_connection c) e (name, rows) = (
      go_on D report a h w,
      ground (arith, e, on_db (conn_name h.pg) name),
      goes_on-Kept a h w there k,
    )

    takes_job :
        (one : ntuples h.pg ≡ 1)
        → Free D new w
        → w.boss ≡ no_job
        → h.arg ≡ to_boss
        → conn_name h.pg ≡ q_subscribe
        → Answered result new a h w
    unfolding by_state db_results subscribed keep_job job_kept
    takes_job one free idle e name =
        let id = getvalue h.pg 0 0 in
        let (v, f, kv, same) = report-Kept new id w free k in
        (
          job_kept id (getvalue h.pg 0 1) (getvalue h.pg 0 2) v,
          ground (arith, f, e, on_subscribe (conn_name h.pg) name),
          job_kept-Kept id (getvalue h.pg 0 1) (getvalue h.pg 0 2) v (same ∙ idle) kv,
        )

    result-Kept :
        (arg : Arg)
        → h.arg ≡ arg
        → Free D new w
        → state h.pg ≡ result
        → Proper D arg h.pg w
        → Answered result new a h w
    unfolding by_state db_results subscribed send_back last_value
    result-Kept to_boss e free s (name, one) = elim (Bool-cases (ntuples h.pg == 1)) [
      | inl job ↦ takes_job (ground arith) free (ground (arith, one, s)) e name
      | inr none_or_many ↦ (w, ground (arith, on_subscribe (conn_name h.pg) name), k)
    ]
    result-Kept to_nothing e free s (inl name) =
        (w, ground (arith, on_job_fails (conn_name h.pg) name), k)
    result-Kept to_nothing e free s (inr (name, n)) = absurd (n s)
    result-Kept (to_connection c) e free s (name, rows) =
        let text = getvalue h.pg (ntuples h.pg - 1) 0 in
        (
          called (kore_websocket_send c 1 text ∷ []) w,
          ground (arith, e, rows, s, on_db (conn_name h.pg) name),
          quiet-Kept D poll listener (kore_websocket_send c 1 text) w refl refl k,
        )

    pub answered :
        (s : PgState) → state h.pg ≡ s → Free D new w → Proper D h.arg h.pg w → Answered s new a h w
    unfolding by_state
    answered init s f p = (w, refl, k)
    answered wait s f p = (w, refl, k)
    answered done s f p = done-Kept h.arg refl p
    answered commandok s f p = (w, refl, k)
    answered notify s f p = (
      called (kore_websocket_broadcast 1 (D.notify_extra h.pg) 4 ∷ []) w,
      refl,
      quiet-Kept D poll listener (kore_websocket_broadcast 1 (D.notify_extra h.pg) 4) w refl refl k,
    )
    answered complete s f p =
        let v = store a (some (record h { pg = D.cleanup h.pg })) w in
        (
          called (kore_pgsql_cleanup a ∷ []) v,
          refl,
          quiet-Kept D poll listener (kore_pgsql_cleanup a) v refl refl
              (changed-Kept a h (D.cleanup h.pg) w there k),
        )
    answered error s f p = (
      called (kore_pgsql_logerror a ∷ []) w,
      refl,
      quiet-Kept D poll listener (kore_pgsql_logerror a) w refl refl k,
    )
    answered result s f p = result-Kept h.arg refl f s p
    answered other_state s f p = (go_on D report a h w, refl, goes_on-Kept a h w there k)
