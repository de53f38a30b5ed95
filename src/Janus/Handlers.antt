-- ===== src/Janus/Handlers.antt =====
-- janus/src/janus.c: the handlers of a websocket, and `del_sess` and `del_han` of janus/src/pjanus.c, by
-- which a websocket that closes ends its session. `none` is a read through NULL.
use kore_io_websocket.Base.{
  ℕ, suc, ◌%◌, ◌^◌, List, [], ◌∷◌, not, ◌&&◌, String, Option, none, some, ltb, ◌==◌, if◌then◌else◌,
}
use kore_io_websocket.Soup.Jansson.{Jansson}
use kore_io_websocket.Janus.{
  World, Usi, called, update, kore_malloc, kore_free, echo, json_new, json_decref, root,
  admin_request,
}
use kore_io_websocket.Janus.Sessions.{
  remove, janus_session_find, janus_session_handles_find, janus_session_handles_remove,
  janus_session_destroy,
}
use kore_io_websocket.Janus.Core.{Core}
use kore_io_websocket.Janus.Requests.{janus_process_incoming_request}

abbrev pub set_extra : ℕ → ℕ → World → World
set_extra c a w = record w { hdlr_extra = update w.hdlr_extra c a }

-- `a` is what `kore_malloc` gives.
unfoldable pub websocket_connect : ℕ → ℕ → World → World
websocket_connect c a w =
    if not (w.hdlr_extra c == 0)
    then w
    else if a == 0
    then w
    else called (kore_malloc a ∷ []) (
        set_extra c a
          (record w { usi = update w.usi a (some (record { sid = 0; hid = 0; aw = 0 })) }))

-- `stop` and the sleep do not matter here.
unfoldable pub kore_worker_teardown : World → World
kore_worker_teardown w = record w { saka = suc w.saka }

-- The session at `p` goes from the table, under its own identifier, and is destroyed.
unfoldable pub end_session : ℕ → World → World
unfolding remove janus_session_destroy
end_session p w =
    janus_session_destroy p (record w { sessions = remove (w.session p).session_id w.sessions })

del_found : Option ℕ → World → World
unfolding end_session
del_found none w = w
del_found (some p) w = end_session p w

unfoldable pub del_sess : ℕ → World → World
unfolding del_found janus_session_find
del_sess sid w = let (p, w') = janus_session_find sid w in del_found p w'

-- The `struct usi` is freed, and the websocket knows it no more.
abbrev pub gone : ℕ → ℕ → World → World
gone c a w = set_extra c 0 (called (kore_free a ∷ []) (record w { usi = update w.usi a none }))

module _ (J : Jansson) (C : Core J) where
  open C use {destroy_error}

  del_handle : ℕ → ℕ → Option ℕ → World → ℕ × World
  unfolding janus_session_handles_remove end_session
  del_handle hid p none w = (1, w)
  del_handle hid p (some h) w =
      let w' = janus_session_handles_remove p h w in
      if not (destroy_error w h == 0) then (1, w') else (0, end_session p w')

  del_in_session : ℕ → Option ℕ → World → ℕ × World
  unfolding del_handle janus_session_handles_find
  del_in_session hid none w = (1, w)
  del_in_session hid (some p) w =
      let (h, w') = janus_session_handles_find p hid w in del_handle hid p h w'

  unfoldable pub del_han : ℕ → ℕ → World → ℕ × World
  unfolding del_in_session janus_session_find
  del_han hid sid w = let (p, w') = janus_session_find sid w in del_in_session hid p w'

  -- What a websocket leaves when it closes, while the worker is not torn down.
  unfoldable pub end_usi : Usi → World → World
  unfolding del_sess del_han
  end_usi us w =
      if ltb 0 us.sid && us.hid == 0
      then del_sess us.sid w
      else if ltb 0 us.sid && ltb 0 us.hid
      then (del_han us.hid us.sid w).1
      else w

  unfoldable pub close_usi : ℕ → ℕ → Option Usi → World → Option World
  unfolding end_usi
  close_usi c a none w = none
  close_usi c a (some us) w = some (gone c a (if w.saka == 0 then end_usi us w else w))

  unfoldable pub websocket_disconnect : ℕ → World → Option World
  unfolding close_usi
  websocket_disconnect c w =
      if w.hdlr_extra c == 0
      then some w
      else close_usi c (w.hdlr_extra c) (w.usi (w.hdlr_extra c)) w

  abbrev released : Option World → Option World
  released none = none
  released (some w) = some (called (json_decref root ∷ []) w)

  -- `usa->aw=abba_id`, an int, if there is a `struct usi`
  set_aw : ℕ → ℕ → Option Usi → World → Option World
  set_aw a n none w = none
  set_aw a n (some us) w =
      some (record w { usi = update w.usi a (some (record us { aw = n % 2 ^ 32 })) })

  -- The requests of a client and of an administrator; `us` is read in any case.
  route : ℕ → J.Json → ℕ → List ℕ → Option Usi → World → Option World
  unfolding janus_process_incoming_request
  route c j now draws none w = none
  route c j now draws (some us) w =
      if us.aw == 0
      then janus_process_incoming_request J C c j now draws w
      else some (if us.aw == 1 then called (admin_request c ∷ []) w else w)

  on_json : ℕ → J.Json → ℕ → List ℕ → Option ℕ → World → Option World
  unfolding set_aw route
  on_json c j now draws (some n) w =
      released (
        if w.hdlr_extra c == 0
        then some w
        else set_aw (w.hdlr_extra c) n (w.usi (w.hdlr_extra c)) w)
  on_json c j now draws none w =
      released
        (if w.hdlr_extra c == 0 then none else route c j now draws (w.usi (w.hdlr_extra c)) w)

  abbrev adtype : J.Json → Option ℕ
  adtype j = elim (J.object_get j "adtype") [ none ↦ none | some v ↦ J.integer_value v ]

  decoded : ℕ → ℕ → String → ℕ → List ℕ → Option J.Json → World → Option World
  unfolding on_json
  decoded c op text now draws none w = some (called (echo c op text ∷ []) w)
  decoded c op text now draws (some j) w =
      on_json c j now draws (adtype j) (called (json_new root ∷ []) w)

  unfoldable pub websocket_message : ℕ → ℕ → String → ℕ → List ℕ → World → Option World
  unfolding decoded
  websocket_message c op text now draws w = decoded c op text now draws (J.loads text) w
