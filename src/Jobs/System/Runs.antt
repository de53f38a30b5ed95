-- ===== src/Jobs/System/Runs.antt =====
-- Any run of websocket_13, from a worker that polls.
use kore_io_websocket.Base.{ℕ, ◌≡◌, refl, List, [], ◌∷◌, String, some, arith}
use kore_io_websocket.Jobs.Database.{Database}
use kore_io_websocket.Jobs.{World, Handle, Arg, to_nothing, to_boss, to_connection, load, store}
use kore_io_websocket.Jobs.Callbacks.{db_state_change}
use kore_io_websocket.Jobs.System.{
  Event, ticks, calls_back, connects, says, leaves, Free, Proper, Allowed, perform, Kept, run,
  AllAllowed,
}
use kore_io_websocket.Jobs.System.Keeps.{Goes, ticks-Kept, says-Kept, connects-Kept, leaves-Kept}
use kore_io_websocket.Jobs.System.Callback.{answered, changed-Kept}

module _ (D : Database) (next_job report : String) (poll listener : ℕ) where
  open D use {Pg}

  still_Proper :
      (a : ℕ) (h : Handle Pg) (p : Pg) (w : World Pg)
      → Proper D h.arg p w
      → Proper D h.arg p (store a (some (record h { pg = p })) w)
  still_Proper a h p w proper = by_arg h.arg proper
    where
      by_arg :
          (arg : Arg) → Proper D arg p w → Proper D arg p (store a (some (record h { pg = p })) w)
      by_arg to_boss q = q
      by_arg to_nothing q = q
      by_arg (to_connection c) q = q

  calls_back-Kept :
      (new a : ℕ) (p : Pg) (w : World Pg)
      → Allowed D (calls_back new a p) w
      → Kept D poll listener w
      → Goes D poll listener next_job report (calls_back new a p) w
  unfolding Goes perform db_state_change
  calls_back-Kept new a p w (free, h, e, proper) k =
      let g = record h { pg = p } in
      let v = store a (some g) w in
      let kv = changed-Kept D poll listener report a h p w e k in
      let there : load a v ≡ some g = ground arith in
      let free' : Free D new v = ground (arith, free) in
      let (w', f, kw) =
        answered D poll listener report new a g v there kv (D.state p) refl free'
          (still_Proper a h p w proper) in
      (w', ground (arith, e, f), kw)

  event-Kept :
      (e : Event Pg) (w : World Pg)
      → Allowed D e w
      → Kept D poll listener w
      → Goes D poll listener next_job report e w
  event-Kept ticks w a k = ticks-Kept D poll listener next_job report w k
  event-Kept (calls_back new b p) w a k = calls_back-Kept new b p w a k
  event-Kept (connects c new) w a k = connects-Kept D poll listener next_job report c new w a.0 k
  event-Kept (says c op text) w a k = says-Kept D poll listener next_job report c op text w k
  event-Kept (leaves c) w a k = leaves-Kept D poll listener next_job report c w k

  -- From a worker whose client of the poll is alive, whose websockets have their clients, and where the
  -- copies of a job that are not freed are those of the job in work, any sequence of events that the
  -- library and Kore allow runs without a fault and ends in such a worker again: timers, callbacks in
  -- every state, websockets that open, speak and leave, in any order. They allow a job to come only when
  -- none is in work, a result for a websocket only with a row, and new clients only in free memory.
  pub worker_runs :
      (es : List (Event Pg)) (w : World Pg)
      → Kept D poll listener w
      → AllAllowed D next_job report poll es w
      → (w' : World Pg) × (run D next_job report poll es w ≡ some w') × Kept D poll listener w'
  unfolding run Goes AllAllowed
  worker_runs [] w k a = (w, refl, k)
  worker_runs (e ∷ es) w k (a, more) =
      let (v, f, kv) = event-Kept e w a k in
      let (w', g, kw) = worker_runs es v kv (rw f at more) in (w', ground (arith, f, g), kw)
