-- ===== src/Janus/Counts.antt =====
-- The counts of the sessions under the requests on a session that was found.
use kore_io_websocket.Base.{
  ℕ, suc, ◌≡◌, [], ◌∷◌, String, Option, none, some, arith, inl, inr, Option-cases, ◌==◌,
  if◌then◌else◌,
}
use kore_io_websocket.Soup.Jansson.{Jansson}
use kore_io_websocket.Janus.{World, Session, called, handle_up}
use kore_io_websocket.Janus.Sessions.{janus_session_handles_insert}
use kore_io_websocket.Janus.Core.{Core}
use kore_io_websocket.Janus.Requests.Handles.{
  keep_hid, jsondone, attach, handle_made, plug_in, destroy, detach, hangup, on_session,
}

-- The reference of the table: it is there until the session is destroyed.
abbrev pub held : Session → ℕ
held s = if s.destroyed then 0 else 1

-- Nobody but the table refers to the session at `q`.
abbrev pub Even : ℕ → World → Type 0
Even q w = (w.session q).ref ≡ held (w.session q)

-- The session at `p` is in use by one request.
abbrev pub Used : ℕ → ℕ → World → Type 0
Used q p w = (w.session q).ref ≡ (if p == q then suc (held (w.session q)) else held (w.session q))

abbrev pub Left : ℕ → Option World → Type 0
Left q none = Unit
Left q (some w) = Even q w

module _ (J : Jansson) (C : Core J) (q c : ℕ) where
  plug_in-Used :
      (sid : ℕ) (t : String) (p hid : ℕ) (w : World)
      → Used q p w
      → Used q p (plug_in J C c sid t p hid w)
  unfolding plug_in
  plug_in-Used sid t p hid w u = ground arith

  keep_hid-Used : (hid p : ℕ) (w w' : World) → keep_hid c hid w ≡ some w' → Used q p w → Used q p w'
  unfolding keep_hid
  keep_hid-Used hid p w w' e u = ground arith

  pub jsondone-Even :
      (h : Option ℕ) (p : ℕ) (w : World) → Used q p w → Even q (jsondone h (some p) w)
  unfolding jsondone
  jsondone-Even none p w u = ground arith
  jsondone-Even (some h) p w u = ground arith

  insert-Used :
      (p hid : ℕ) (w : World) → Used q p w → Used q p (janus_session_handles_insert p hid w)
  unfolding janus_session_handles_insert
  insert-Used p hid w u = ground arith

  handle_made-Even :
      (sid : ℕ) (t : String) (p : ℕ) (h : Option ℕ) (w : World)
      → Used q p w
      → Left q (handle_made J C c sid t p h w)
  unfolding handle_made
  handle_made-Even sid t p none w u = ground arith
  handle_made-Even sid t p (some hid) w u =
      let v = janus_session_handles_insert p hid w in
      elim (Option-cases (keep_hid c hid v)) [
        | inl e ↦ rw (Left, e) tt
        | inr (w', e) ↦
            let x = called (handle_up hid ∷ []) w' in
            let kept = keep_hid-Used hid p v w' e (insert-Used p hid w u) in
            rw (Left, e)
              (jsondone-Even (some hid) p (plug_in J C c sid t p hid x)
                (plug_in-Used sid t p hid x kept))
      ]

  attach-Even :
      (root : J.Json) (sid : ℕ) (t text : String) (p : ℕ) (h : Option ℕ) (w : World)
      → Used q p w
      → Left q (attach J C c root sid t text p h w)
  unfolding attach
  attach-Even root sid t text p none w u =
      ground (arith, handle_made-Even sid t p (C.new_handle w sid) w)
  attach-Even root sid t text p (some h) w u = ground arith

  destroy-Even :
      (sid : ℕ) (t text : String) (p : ℕ) (h : Option ℕ) (w : World)
      → Used q p w
      → Left q (destroy J C c sid t text p h w)
  unfolding destroy
  destroy-Even sid t text p none w u = ground arith
  destroy-Even sid t text p (some h) w u = ground arith

  detach-Even :
      (sid : ℕ) (t text : String) (p : ℕ) (h : Option ℕ) (w : World)
      → Used q p w
      → Left q (detach J C c sid t text p h w)
  unfolding detach
  detach-Even sid t text p none w u = ground arith
  detach-Even sid t text p (some h) w u = ground arith

  hangup-Even :
      (sid : ℕ) (t text : String) (p : ℕ) (h : Option ℕ) (w : World)
      → Used q p w
      → Left q (hangup J C c sid t text p h w)
  unfolding hangup
  hangup-Even sid t text p none w u = ground arith
  hangup-Even sid t text p (some h) w u = ground arith

  pub on_session-Even :
      (root : J.Json) (sid : ℕ) (t text : String) (p : ℕ) (h : Option ℕ) (w : World)
      → Used q p w
      → Left q (on_session J C c root sid t text p h w)
  unfolding on_session
  on_session-Even root sid t text p none w u = ground (
    arith,
    attach-Even root sid t text p none w u,
    destroy-Even sid t text p none w u,
    detach-Even sid t text p none w u,
    hangup-Even sid t text p none w u,
  )
  on_session-Even root sid t text p (some h) w u = ground (
    arith,
    attach-Even root sid t text p (some h) w u,
    destroy-Even sid t text p (some h) w u,
    detach-Even sid t text p (some h) w u,
    hangup-Even sid t text p (some h) w u,
  )
