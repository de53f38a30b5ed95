-- ===== src/Janus/Total.antt =====
-- Every request to janus is carried to its end.
use kore_io_websocket.Base.{
  ℕ, ◌≡◌, refl, List, [], ◌∷◌, Bool, true, false, not, ◌&&◌, ◌||◌, String, Option, none, some,
  arith, inl, inr, Option-cases, Bool-cases, ◌==◌, if◌then◌else◌,
}
use kore_io_websocket.Soup.Jansson.{Jansson}
use kore_io_websocket.Janus.{World, Usi, called, handle_up}
use kore_io_websocket.Janus.Sessions.{
  is_some, lookup, refcount_increase, refcount_decrease, janus_session_handles_insert,
  draw_session_id,
}
use kore_io_websocket.Janus.Core.{Core}
use kore_io_websocket.Janus.Requests.Handles.{
  with_usi, set_sid, keep_hid, attach, handle_made, destroy, detach, hangup, on_session,
}
use kore_io_websocket.Janus.Requests.{
  introduce, make, choose, drawn, with_id, given_id, create_session, without_session, used,
  on_handle, found_session, with_session, routed, checked, janus_process_incoming_request,
}

-- A websocket without `hdlr_extra`, or one whose `struct usi` is there.
abbrev pub reads : ℕ → World → Bool
reads c w =
    if w.hdlr_extra c == 0
    then true
    else elim (w.usi (w.hdlr_extra c)) [ none ↦ false | some us ↦ true ]

-- A number other than 0 that no session has is drawn.
abbrev pub draws_free : List ℕ → List (ℕ × ℕ) → Bool
draws_free [] t = false
draws_free (id ∷ ids) t = (not (id == 0) && not (is_some (lookup id t))) || draws_free ids t

abbrev pub Ends : Option World → Type 0
Ends none = ⊥
Ends (some w) = Unit

ended : (o : Option World) → Ends o → (w : World) × (o ≡ some w)
ended none e = elim e [ ]
ended (some w) e = (w, refl)

module _ (J : Jansson) (C : Core J) (c : ℕ) where
  with_usi-Ends : (f : Usi → Usi) (w : World) → reads c w ≡ true → Ends (with_usi c f w)
  unfolding with_usi
  with_usi-Ends f w r = ground arith

  handle_made-Ends :
      (sid : ℕ) (t : String) (p : ℕ) (h : Option ℕ) (w : World)
      → reads c w ≡ true
      → Ends (handle_made J C c sid t p h w)
  unfolding handle_made keep_hid janus_session_handles_insert
  handle_made-Ends sid t p none w r = tt
  handle_made-Ends sid t p (some hid) w r =
      let (w', e) =
        ended (keep_hid c hid (janus_session_handles_insert p hid w))
          (with_usi-Ends _ (janus_session_handles_insert p hid w) r) in
      rw (Ends, e) tt

  attach-Ends :
      (root : J.Json) (sid : ℕ) (t text : String) (p : ℕ) (h : Option ℕ) (w : World)
      → reads c w ≡ true
      → Ends (attach J C c root sid t text p h w)
  unfolding attach
  attach-Ends root sid t text p none w r =
      ground (arith, handle_made-Ends sid t p (C.new_handle w sid) w r)
  attach-Ends root sid t text p (some h) w r = tt

  destroy-Ends :
      (sid : ℕ) (t text : String) (p : ℕ) (h : Option ℕ) (w : World)
      → reads c w ≡ true
      → Ends (destroy J C c sid t text p h w)
  unfolding destroy
  destroy-Ends sid t text p none w r = ground arith
  destroy-Ends sid t text p (some h) w r = tt

  detach-Ends :
      (sid : ℕ) (t text : String) (p : ℕ) (h : Option ℕ) (w : World)
      → reads c w ≡ true
      → Ends (detach J C c sid t text p h w)
  unfolding detach
  detach-Ends sid t text p none w r = tt
  detach-Ends sid t text p (some h) w r = ground arith

  hangup-Ends :
      (sid : ℕ) (t text : String) (p : ℕ) (h : Option ℕ) (w : World)
      → Ends (hangup J C c sid t text p h w)
  unfolding hangup
  hangup-Ends sid t text p none w = tt
  hangup-Ends sid t text p (some h) w = ground arith

  on_session-Ends :
      (root : J.Json) (sid : ℕ) (t text : String) (p : ℕ) (h : Option ℕ) (w : World)
      → reads c w ≡ true
      → Ends (on_session J C c root sid t text p h w)
  unfolding on_session
  on_session-Ends root sid t text p h w r = ground (
    arith,
    attach-Ends root sid t text p h w r,
    destroy-Ends sid t text p h w r,
    detach-Ends sid t text p h w r,
    hangup-Ends sid t text p h w,
  )

  introduce-Ends :
      (t : String) (id : ℕ) (w : World) (p : ℕ) → reads c w ≡ true → Ends (introduce J C c t id w p)
  unfolding introduce set_sid refcount_increase
  introduce-Ends t id w p r =
      let (w', e) =
        ended (set_sid c id (refcount_increase p w)) (with_usi-Ends _ (refcount_increase p w) r) in
      rw (Ends, e) tt

  make-Ends :
      (t : String) (now id : ℕ) (w : World) → reads c w ≡ true → Ends (make J C c t now id w)
  unfolding make
  make-Ends t now id w r = introduce-Ends t id _ _ r

  drawn-Ends :
      (t : String) (now : ℕ) (draws : List ℕ) (w : World)
      → reads c w ≡ true
      → draws_free draws w.sessions ≡ true
      → Ends (drawn J C c t now (draw_session_id draws w))
  unfolding drawn draw_session_id
  drawn-Ends t now [] w r f = absurd (ground arith)
  drawn-Ends t now (id ∷ ids) w r f = elim (Option-cases (lookup id w.sessions)) [
    | inl e ↦ ground (arith, drawn-Ends t now ids w r, make-Ends t now id w r)
    | inr (p, e) ↦
        ground (arith, drawn-Ends t now ids (refcount_decrease p (refcount_increase p w)) r)
  ]

  with_id-Ends :
      (t : String) (now : ℕ) (draws : List ℕ) (id : ℕ) (w : World)
      → reads c w ≡ true
      → draws_free draws w.sessions ≡ true
      → Ends (with_id J C c t now draws id w)
  unfolding with_id choose
  with_id-Ends t now draws id w r f = elim (Bool-cases (id == 0)) [
    | inl e ↦ rw (Ends, e) (drawn-Ends t now draws w r f)
    | inr e ↦ elim (Option-cases (lookup id w.sessions)) [
      | inl n ↦ ground (arith, make-Ends t now id w r)
      | inr (p, s) ↦ ground arith
    ]
  ]

  create_session-Ends :
      (root : J.Json) (t : String) (now : ℕ) (draws : List ℕ) (w : World)
      → reads c w ≡ true
      → draws_free draws w.sessions ≡ true
      → Ends (create_session J C c root t now draws w)
  unfolding create_session
  create_session-Ends root t now draws w r f =
      ground (arith, with_id-Ends t now draws (given_id J C root) w r f)

  without_session-Ends :
      (root : J.Json) (t text : String) (now : ℕ) (draws : List ℕ) (w : World)
      → reads c w ≡ true
      → draws_free draws w.sessions ≡ true
      → Ends (without_session J C c root t text now draws w)
  unfolding without_session
  without_session-Ends root t text now draws w r f =
      ground (arith, create_session-Ends root t now draws w r f)

  on_handle-Ends :
      (root : J.Json) (sid hid : ℕ) (t text : String) (p : ℕ) (h : Option ℕ) (w : World)
      → reads c w ≡ true
      → Ends (on_handle J C c root sid hid t text p h w)
  unfolding on_handle
  on_handle-Ends root sid hid t text p none w r = tt
  on_handle-Ends root sid hid t text p (some h) w r = on_session-Ends root sid t text p (some h) w r

  found_session-Ends :
      (root : J.Json) (sid hid : ℕ) (t text : String) (now : ℕ) (o : Option ℕ) (w : World)
      → reads c w ≡ true
      → Ends (found_session J C c root sid hid t text now o w)
  unfolding found_session
  found_session-Ends root sid hid t text now none w r = tt
  found_session-Ends root sid hid t text now (some p) w r = ground (
    arith,
    on_handle-Ends root sid hid t text p none (used p now w) r,
    on_handle-Ends root sid hid t text p (some hid) (called (handle_up hid ∷ []) (used p now w)) r,
    on_session-Ends root sid t text p none (used p now w) r,
  )

  with_session-Ends :
      (root : J.Json) (sid hid : ℕ) (t text : String) (now : ℕ) (w : World)
      → reads c w ≡ true
      → Ends (with_session J C c root sid hid t text now w)
  unfolding with_session
  with_session-Ends root sid hid t text now w r = elim (Option-cases (lookup sid w.sessions)) [
    | inl e ↦ ground (arith, found_session-Ends root sid hid t text now none w r)
    | inr (p, e) ↦
        ground
          (arith, found_session-Ends root sid hid t text now (some p) (refcount_increase p w) r)
  ]

  routed-Ends :
      (root : J.Json) (sid hid : ℕ) (t text : String) (now : ℕ) (draws : List ℕ) (w : World)
      → reads c w ≡ true
      → draws_free draws w.sessions ≡ true
      → Ends (routed J C c root sid hid (some t) (some text) now draws w)
  unfolding routed
  routed-Ends root sid hid t text now draws w r f = ground (
    arith,
    without_session-Ends root t text now draws w r f,
    with_session-Ends root sid hid t text now w r,
  )

  checked-Ends :
      (root : J.Json) (now : ℕ) (draws : List ℕ) (w : World)
      → reads c w ≡ true
      → draws_free draws w.sessions ≡ true
      → Ends (checked J C (C.request_error root) c root now draws w)
  unfolding checked
  checked-Ends root now draws w r f = elim (Option-cases (C.request_error root)) [
    | inl e ↦
        let (t, is_t) = C.has_transaction root e in
        let (text, is_text) = C.has_janus root e in
        rw (Ends, e) (rw (Ends, is_t, is_text) (routed-Ends root _ _ t text now draws w r f))
    | inr (x, e) ↦ rw (Ends, e) tt
  ]

  pub requests_total :
      (root : J.Json) (now : ℕ) (draws : List ℕ) (w : World)
      → reads c w ≡ true
      → draws_free draws w.sessions ≡ true
      → (w' : World) × (janus_process_incoming_request J C c root now draws w ≡ some w')
  unfolding janus_process_incoming_request
  requests_total root now draws w r f =
      ended (checked J C (C.request_error root) c root now draws w)
        (checked-Ends root now draws w r f)
