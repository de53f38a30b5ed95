-- ===== src/Jobs/Connections.antt =====
-- websocket_13/src/websocket_13.c, the handlers of a websocket: each has a client of the database of its
-- own, in `hdlr_extra`.
use kore_io_websocket.Base.{ℕ, [], ◌∷◌, String, Option, none, some, ◌==◌, if◌then◌else◌}
use kore_io_websocket.Jobs.Database.{Database}
use kore_io_websocket.Jobs.{
  World, Handle, to_connection, q_name, update, kore_pgsql_cleanup, kore_free_client,
  kore_websocket_send, called, store, load,
}
use kore_io_websocket.Jobs.Sending.{db_query, with_client}

module _ (D : Database) where
  open D use {Pg, cleanup}

  abbrev pub set_extra : ℕ → ℕ → World Pg → World Pg
  set_extra c a w = record w { hdlr_extra = update w.hdlr_extra c a }

  -- `a` is what `kore_calloc` returns, which ends the program when there is no memory.
  unfoldable pub connection_new : ℕ → ℕ → World Pg → World Pg
  connection_new c a w = set_extra c a (with_client D a (to_connection c) w)

  unfoldable pub websocket_connect : ℕ → ℕ → World Pg → Option (World Pg)
  unfolding connection_new db_query
  websocket_connect c a w =
      if a == 0
      then none
      else db_query D a q_name "update banners set alt='Chicago Bulls'" (connection_new c a w)

  unfoldable pub websocket_message : ℕ → ℕ → String → World Pg → Option (World Pg)
  unfolding db_query
  websocket_message c op text w =
      let v = called (kore_websocket_send c op text ∷ []) w in
      if w.hdlr_extra c == 0
      then some v
      else db_query D (w.hdlr_extra c) q_name "select*from coders;update banners set alt='fucky'" v

  give_back : ℕ → ℕ → Option (Handle Pg) → World Pg → Option (World Pg)
  give_back c a none w = none
  give_back c a (some h) w =
      some
        (set_extra c 0 (called (kore_pgsql_cleanup a ∷ kore_free_client a ∷ []) (store a none w)))

  -- `kore_free` of NULL does nothing.
  unfoldable pub connection_del : ℕ → World Pg → Option (World Pg)
  unfolding give_back
  connection_del c w =
      if w.hdlr_extra c == 0
      then some (set_extra c 0 w)
      else give_back c (w.hdlr_extra c) (load (w.hdlr_extra c) w) w

  -- Kore calls it for a websocket that closes, and `connection_del` too, as `c->disconnect`.
  unfoldable pub websocket_disconnect : ℕ → World Pg → Option (World Pg)
  unfolding connection_del
  websocket_disconnect c w = connection_del c w
