-- ===== src/Jobs/Replies.antt =====
-- What a websocket of websocket_13/src/websocket_13.c is told, and its end.
use text.Mathlib.Text.{◌==◌ as str_eq}
use kore_io_websocket.Base.{
  ℕ, ◌≡◌, ◌≢◌, refl, [], ◌∷◌, String, none, some, ◌==◌, if◌then◌else◌, arith,
}
use kore_io_websocket.Jobs.Database.{Database}
use kore_io_websocket.Jobs.{World, kore_pgsql_cleanup, kore_free_client, called, store}
use kore_io_websocket.Jobs.Connections.{websocket_disconnect, connection_del, set_extra}
use kore_io_websocket.Jobs.System.{Kept}

module _ (D : Database) (report : String) where
  open D use {Pg, state, conn_name, ntuples, getvalue}

  -- A websocket with a client leaves, while the worker keeps to its invariant: its client is cleaned up
  -- and freed, once, and no other. Kore then calls `connection_del` again, which changes nothing.
  pub leaving_frees_once :
      (poll listener c : ℕ) (w : World Pg)
      → Kept D poll listener w
      → w.hdlr_extra c ≢ 0
      → (v : World Pg) × (websocket_disconnect D c w ≡ some v)
        × (v.trace
            ≡ kore_free_client (w.hdlr_extra c) ∷ kore_pgsql_cleanup (w.hdlr_extra c) ∷ w.trace)
        × ((a : ℕ) → v.handles a ≡ (if w.hdlr_extra c == a then none else w.handles a))
        × (v.hdlr_extra c ≡ 0)
        × (connection_del D c v ≡ some (set_extra D c 0 v))
  unfolding websocket_disconnect connection_del
  leaving_frees_once poll listener c w k n =
      let a = w.hdlr_extra c in
      let (h, e, l) = k.linked c n in
      (
        set_extra D c 0 (called (kore_pgsql_cleanup a ∷ kore_free_client a ∷ []) (store a none w)),
        ground arith,
        refl,
        λ b. refl,
        ground arith,
        ground arith,
      )
