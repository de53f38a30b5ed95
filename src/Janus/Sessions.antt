-- ===== src/Janus/Sessions.antt =====
-- janus/src/pjanus.c, the table of sessions and the handles of a session. The counts of a session are
-- in the world; those of a handle belong to the ICE agent, and their changes are recorded.
use kore_io_websocket.Base.{
  ℕ, suc, ◌-◌, List, [], ◌∷◌, Bool, true, false, Option, none, some, map, ◌||◌, ◌==◌, if◌then◌else◌,
}
use kore_io_websocket.Janus.{World, Session, handle_up, janus_ice_handle_destroy, called, update}

-- g_hash_table_lookup, g_hash_table_remove, g_hash_table_insert
unfoldable pub lookup : ℕ → List (ℕ × ℕ) → Option ℕ
lookup k [] = none
lookup k ((j, p) ∷ t) = if j == k then some p else lookup k t

unfoldable pub remove : ℕ → List (ℕ × ℕ) → List (ℕ × ℕ)
remove k [] = []
remove k ((j, p) ∷ t) = let rest = remove k t in if j == k then rest else (j, p) ∷ rest

unfoldable pub insert : ℕ → ℕ → List (ℕ × ℕ) → List (ℕ × ℕ)
insert k p t = (k, p) ∷ remove k t

unfoldable pub holds : ℕ → List ℕ → Bool
holds k [] = false
holds k (j ∷ js) = if j == k then true else holds k js

unfoldable pub without : ℕ → List ℕ → List ℕ
without k [] = []
without k (j ∷ js) = let rest = without k js in if j == k then rest else j ∷ rest

abbrev pub set_session : ℕ → Session → World → World
set_session p s w = record w { session = update w.session p s }

-- janus_refcount_increase(&session->ref), janus_refcount_decrease(&session->ref)
unfoldable pub refcount_increase : ℕ → World → World
refcount_increase p w = set_session p (record (w.session p) { ref = suc (w.session p).ref }) w

unfoldable pub refcount_decrease : ℕ → World → World
refcount_decrease p w = set_session p (record (w.session p) { ref = (w.session p).ref - 1 }) w

found : Option ℕ → World → Option ℕ × World
found none w = (none, w)
found (some p) w = (some p, refcount_increase p w)

unfoldable pub janus_session_find : ℕ → World → Option ℕ × World
unfolding found lookup refcount_increase
janus_session_find id w = found (lookup id w.sessions) w

-- The handles of the session: all are destroyed and taken out.
unfoldable pub janus_session_handles_clear : ℕ → World → World
janus_session_handles_clear p w =
    called (map janus_ice_handle_destroy (w.session p).ice_handles)
      (set_session p (record (w.session p) { ice_handles = [] }) w)

unfoldable pub janus_session_destroy : ℕ → World → World
unfolding janus_session_handles_clear refcount_decrease
janus_session_destroy p w =
    if (w.session p).destroyed
    then w
    else refcount_decrease p (
        janus_session_handles_clear p (set_session p (record (w.session p) { destroyed = true }) w))

unfoldable pub janus_session_handles_find : ℕ → ℕ → World → Option ℕ × World
unfolding holds
janus_session_handles_find p hid w =
    if holds hid (w.session p).ice_handles
    then (some hid, called (handle_up hid ∷ []) w)
    else (none, w)

unfoldable pub janus_session_handles_insert : ℕ → ℕ → World → World
unfolding without
janus_session_handles_insert p hid w = called (handle_up hid ∷ []) (
    set_session p
      (record (w.session p) { ice_handles = hid ∷ without hid (w.session p).ice_handles }) w)

unfoldable pub janus_session_handles_remove : ℕ → ℕ → World → World
unfolding without
janus_session_handles_remove p hid w =
    called (janus_ice_handle_destroy hid ∷ []) (
      set_session p (record (w.session p) { ice_handles = without hid (w.session p).ice_handles })
        w)

abbrev pub released : Option ℕ → World → World
released none w = w
released (some p) w = refcount_decrease p w

abbrev pub is_some : Option ℕ → Bool
is_some none = false
is_some (some p) = true

-- The loop that draws an identifier until it is free; a 0 is drawn again. `none`: the numbers that
-- janus_random_uint64 gives are used up.
unfoldable pub draw_session_id : List ℕ → World → Option (ℕ × World)
unfolding janus_session_find refcount_decrease
draw_session_id [] w = none
draw_session_id (id ∷ ids) w =
    let (p, w') = janus_session_find id w in
    let again = draw_session_id ids (released p w') in
    if is_some p || id == 0 then again else some (id, w')

-- The session is entered in the table with a count of 1.
unfoldable pub enter_session : ℕ → ℕ → World → ℕ × World
unfolding insert remove
enter_session id now w =
    let s : Session = record {
      session_id = id;
      ref = 1;
      destroyed = false;
      last_activity = now;
      ice_handles = [];
    } in
    (
      w.fresh,
      record w {
        session = update w.session w.fresh s;
        fresh = suc w.fresh;
        sessions = insert id w.fresh w.sessions;
      },
    )
