-- ===== src/Janus/Lives.antt =====
-- How sessions of janus end when their websocket closes.
use kore_io_websocket.Base.{ℕ, ◌<◌, ◌≡◌, refl, List, [], ◌∷◌, true, false, none, some, arith, ◌==◌}
use kore_io_websocket.Soup.Jansson.{Jansson}
use kore_io_websocket.Janus.{World, Usi}
use kore_io_websocket.Janus.Sessions.{lookup, remove, holds}
use kore_io_websocket.Janus.Core.{Core}
use kore_io_websocket.Janus.Handlers.{
  gone, close_usi, websocket_disconnect, del_sess, del_han, end_usi,
}
use kore_io_websocket.Janus.Counts.{Even}

lookup-remove : (k : ℕ) (t : List (ℕ × ℕ)) → lookup k (remove k t) ≡ none
unfolding lookup remove
lookup-remove k [] = refl
lookup-remove k ((j, p) ∷ t) = ground (arith, lookup-remove k t)

-- The websocket `c` is open, `us` is what it knows of its session, and that session is in the table.
pub record Serves (c sid hid : ℕ) (p : ℕ) (w : World) : Type 0 where
  pub has_extra : (w.hdlr_extra c == 0) ≡ false
  pub us : Usi
  pub known : w.usi (w.hdlr_extra c) ≡ some us
  pub of_session : us.sid ≡ sid
  pub of_handle : us.hid ≡ hid
  pub is_session : 0 < sid
  pub running : w.saka ≡ 0
  pub entered : lookup sid w.sessions ≡ some p
  pub own_id : (w.session p).session_id ≡ sid
  pub lives : (w.session p).destroyed ≡ false

del_sess_lem :
    (sid p : ℕ) (w : World)
    → lookup sid w.sessions ≡ some p
    → (w.session p).session_id ≡ sid
    → (w.session p).destroyed ≡ false
    → Even p w
    → (lookup sid (del_sess sid w).sessions ≡ none)
      × (((del_sess sid w).session p).destroyed ≡ true)
      × (((del_sess sid w).session p).ref ≡ 1)
unfolding del_sess
del_sess_lem sid p w e own lives even =
    (ground (arith, lookup-remove sid w.sessions), ground arith, ground arith)

module _ (J : Jansson) (C : Core J) (c sid p : ℕ) (w : World) where
  closes :
      {hid : ℕ} (s : Serves c sid hid p w)
      → websocket_disconnect J C c w ≡ some (gone c (w.hdlr_extra c) (end_usi J C s.us w))
  unfolding websocket_disconnect
  closes s = rw (s.has_extra, s.known, close_usi, s.running) refl

  ends : (s : Serves c sid 0 p w) → end_usi J C s.us w ≡ del_sess sid w
  unfolding end_usi
  ends s = ground (arith, s.of_session, s.of_handle, s.is_session)

  -- A websocket with a session and no handle closes, while nobody but the table refers to the session:
  -- the session is out of the table and destroyed, but it keeps a reference that nobody gives back.
  pub disconnect_leaks_session :
      Serves c sid 0 p w
      → Even p w
      → (w' : World) × (websocket_disconnect J C c w ≡ some w')
        × (lookup sid w'.sessions ≡ none)
        × ((w'.session p).destroyed ≡ true)
        × ((w'.session p).ref ≡ 1)
        × (w'.hdlr_extra c ≡ 0)
  disconnect_leaks_session s even =
      let (out, over, kept) = del_sess_lem sid p w s.entered s.own_id s.lives even in
      (
        gone c (w.hdlr_extra c) (del_sess sid w),
        rw (← ends s) (closes s),
        out,
        over,
        kept,
        ground arith,
      )

  ends_han :
      {hid : ℕ} (s : Serves c sid hid p w)
      → 0 < hid
      → end_usi J C s.us w ≡ (del_han J C hid sid w).1
  unfolding end_usi
  ends_han s some_handle = ground (arith, s.of_session, s.of_handle, s.is_session)

  del_han_stale :
      (hid : ℕ)
      → lookup sid w.sessions ≡ some p
      → holds hid (w.session p).ice_handles ≡ false
      → Even p w
      → (w.session p).destroyed ≡ false
      → (lookup sid (del_han J C hid sid w).1.sessions ≡ some p)
        × (((del_han J C hid sid w).1.session p).destroyed ≡ false)
        × (((del_han J C hid sid w).1.session p).ref ≡ 2)
  unfolding del_han
  del_han_stale hid e stale even lives = (ground arith, ground arith, ground arith)

  -- A websocket whose session has no handle under the identifier that the websocket remembers closes:
  -- the session stays in the table with its handles, is not destroyed, and has one reference more.
  pub stale_handle_keeps_session :
      (hid : ℕ)
      → Serves c sid hid p w
      → 0 < hid
      → holds hid (w.session p).ice_handles ≡ false
      → Even p w
      → (w' : World) × (websocket_disconnect J C c w ≡ some w')
        × (lookup sid w'.sessions ≡ some p)
        × ((w'.session p).destroyed ≡ false)
        × ((w'.session p).ref ≡ 2)
        × (w'.hdlr_extra c ≡ 0)
  stale_handle_keeps_session hid s some_handle stale even =
      let (still, lives, more) = del_han_stale hid s.entered stale even s.lives in
      (
        gone c (w.hdlr_extra c) (del_han J C hid sid w).1,
        rw (← ends_han s some_handle) (closes s),
        still,
        lives,
        more,
        ground arith,
      )
