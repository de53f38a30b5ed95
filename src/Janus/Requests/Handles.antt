-- ===== src/Janus/Requests/Handles.antt =====
-- janus/src/pjanus.c, the part of `janus_process_incoming_request` on a session that was found: the
-- requests keepalive, attach, destroy, detach, hangup and claim.
use kore_io_websocket.Base.{
  ℕ, [], ◌∷◌, Bool, true, not, ◌&&◌, String, Option, none, some, ◌==◌, if◌then◌else◌,
}
use kore_io_websocket.Soup.Jansson.{Jansson}
use kore_io_websocket.Janus.{
  World, Usi, message, ErrorCode, Reason, invalid_request_path, plugin_not_found,
  unauthorized_plugin, plugin_attach, plugin_detach, unknown, invalid, no_plugin_attached,
  no_plugin_to_detach, memory_error, cause, unhandled, no_such_plugin, attach_failed, detach_failed,
  token_refused, called, update, handle_up, handle_down, handle_request, janus_ice_webrtc_hangup,
}
use kore_io_websocket.Janus.Sessions.{
  remove, refcount_decrease, janus_session_destroy, janus_session_handles_insert,
  janus_session_handles_remove,
}
use kore_io_websocket.Janus.Core.{Core, text_at}
use kore_io_websocket.Janus.Replies.{janus_process_success, janus_process_error}

stored : ℕ → (Usi → Usi) → Option Usi → World → Option World
stored a f none w = none
stored a f (some u) w = some (record w { usi = update w.usi a (some (f u)) })

-- `if(request->hdlr_extra !=NULL)`, and then a change of what it points to
unfoldable pub with_usi : ℕ → (Usi → Usi) → World → Option World
unfolding stored
with_usi c f w =
    if w.hdlr_extra c == 0 then some w else stored (w.hdlr_extra c) f (w.usi (w.hdlr_extra c)) w

unfoldable pub set_sid : ℕ → ℕ → World → Option World
unfolding with_usi
set_sid c sid w = with_usi c (λ u. record u { sid = sid }) w

unfoldable pub set_hid : ℕ → ℕ → World → Option World
unfolding with_usi
set_hid c hid w = with_usi c (λ u. record u { hid = hid }) w

-- `if(us->hid==0)us->hid=handle_id`
unfoldable pub keep_hid : ℕ → ℕ → World → Option World
unfolding with_usi
keep_hid c hid w = with_usi c (λ u. if u.hid == 0 then record u { hid = hid } else u) w

handle_done : Option ℕ → World → World
handle_done none w = w
handle_done (some h) w = called (handle_down h ∷ []) w

session_done : Option ℕ → World → World
session_done none w = w
session_done (some p) w = refcount_decrease p w

unfoldable pub jsondone : Option ℕ → Option ℕ → World → World
unfolding handle_done session_done refcount_decrease
jsondone h p w = session_done p (handle_done h w)

module _ (J : Jansson) (C : Core J) where
  open J use {Json}
  open C use {
    dumps, attach_error_of, strcasecmp_eq, auth_is_enabled, check_plugin, has_plugin, new_handle,
    attach_error, destroy_error, has_app,
  }

  abbrev refuse : ℕ → ℕ → String → ErrorCode → Reason → World → World
  refuse c sid transaction code reason w =
      janus_process_error dumps c sid (some transaction) code reason w

  abbrev grant : ℕ → String → ℕ → String → World → World
  grant c word sid transaction w =
      janus_process_success dumps c (message word sid transaction none) w

  abbrev unhandled_here : ℕ → ℕ → String → String → World → World
  unhandled_here c sid transaction text w =
      refuse c sid transaction invalid_request_path (unhandled text) w

  -- The new handle is attached to the plugin; if that fails, it is taken out again.
  unfoldable pub plug_in : ℕ → ℕ → String → ℕ → ℕ → World → World
  unfolding janus_process_success janus_process_error janus_session_handles_remove
  plug_in c sid transaction p hid w =
      if attach_error w hid == 0
      then janus_process_success dumps c (message "success" sid transaction (some hid)) w
      else refuse c sid transaction plugin_attach (attach_failed (attach_error w hid))
          (janus_session_handles_remove p hid w)

  -- janus_ice_handle_create enters the handle by `janus_session_handles_insert`.
  unfoldable pub handle_made : ℕ → ℕ → String → ℕ → Option ℕ → World → Option World
  unfolding jsondone janus_process_error
  handle_made c sid transaction p none w =
      some (jsondone none (some p) (refuse c sid transaction unknown memory_error w))
  handle_made c sid transaction p (some hid) w =
      elim (keep_hid c hid (janus_session_handles_insert p hid w)) [
        | none ↦ none
        | some w' ↦ some (
            jsondone (some hid) (some p)
              (plug_in c sid transaction p hid (called (handle_up hid ∷ []) w')))
      ]

  may_use : Option String → Option String → Bool
  may_use none plugin = true
  may_use (some token) none = true
  may_use (some token) (some plugin) = check_plugin token plugin

  abbrev word : Option String → String
  word none = "(null)"
  word (some t) = t

  unfoldable pub attach_to : ℕ → Json → ℕ → String → ℕ → Option (ℕ × String) → World → Option World
  unfolding may_use janus_process_error jsondone
  attach_to c root sid transaction p (some (code, text)) w =
      some (jsondone none (some p) (refuse c sid transaction (invalid code) (cause text) w))
  attach_to c root sid transaction p none w =
      let token = text_at J root "token" in
      let plugin = text_at J root "plugin" in
      if not (has_plugin plugin)
      then some (
          jsondone none (some p)
            (refuse c sid transaction plugin_not_found (no_such_plugin (word plugin)) w))
      else if auth_is_enabled && not (may_use token plugin)
      then some (
          jsondone none (some p) (
            refuse c sid transaction unauthorized_plugin (token_refused (word token) (word plugin))
              w))
      else handle_made c sid transaction p (new_handle w sid) w

  unfoldable pub attach : ℕ → Json → ℕ → String → String → ℕ → Option ℕ → World → Option World
  unfolding attach_to jsondone janus_process_error
  attach c root sid transaction text p (some h) w =
      some (jsondone (some h) (some p) (unhandled_here c sid transaction text w))
  attach c root sid transaction text p none w =
      attach_to c root sid transaction p (attach_error_of root) w

  unfoldable pub destroy : ℕ → ℕ → String → String → ℕ → Option ℕ → World → Option World
  unfolding set_sid with_usi jsondone janus_process_success janus_process_error
      janus_session_destroy remove
  destroy c sid transaction text p (some h) w =
      some (jsondone (some h) (some p) (unhandled_here c sid transaction text w))
  destroy c sid transaction text p none w =
      elim (set_sid c 0 (record w { sessions = remove (w.session p).session_id w.sessions })) [
        | none ↦ none
        | some w' ↦ some (
            jsondone none (some p) (grant c "success" sid transaction (janus_session_destroy p w')))
      ]

  -- The handle is out of the session by then; `e` is what its destruction gave.
  detached : ℕ → ℕ → String → ℕ → ℕ → ℕ → World → Option World
  unfolding set_hid with_usi jsondone janus_process_success janus_process_error
  detached c sid transaction p h e w =
      if not (e == 0)
      then some
          (jsondone (some h) (some p) (refuse c sid transaction plugin_detach (detach_failed e) w))
      else elim (set_hid c 0 w) [
        | none ↦ none
        | some w' ↦ some (jsondone (some h) (some p) (grant c "success" sid transaction w'))
      ]

  unfoldable pub detach : ℕ → ℕ → String → String → ℕ → Option ℕ → World → Option World
  unfolding detached jsondone janus_process_error janus_session_handles_remove
  detach c sid transaction text p none w =
      some (jsondone none (some p) (unhandled_here c sid transaction text w))
  detach c sid transaction text p (some h) w =
      if not (has_app w h)
      then some (
          jsondone (some h) (some p) (refuse c sid transaction plugin_detach no_plugin_to_detach w))
      else detached c sid transaction p h (destroy_error w h) (janus_session_handles_remove p h w)

  unfoldable pub hangup : ℕ → ℕ → String → String → ℕ → Option ℕ → World → Option World
  unfolding jsondone janus_process_success janus_process_error
  hangup c sid transaction text p none w =
      some (jsondone none (some p) (unhandled_here c sid transaction text w))
  hangup c sid transaction text p (some h) w =
      if not (has_app w h)
      then some
          (jsondone (some h) (some p) (refuse c sid transaction plugin_detach no_plugin_attached w))
      else some (
          jsondone (some h) (some p)
            (grant c "success" sid transaction (called (janus_ice_webrtc_hangup h ∷ []) w)))

  -- Any other request is handed on, with the handle or 0.
  abbrev number : Option ℕ → ℕ
  number none = 0
  number (some h) = h

  unfoldable pub on_session : ℕ → Json → ℕ → String → String → ℕ → Option ℕ → World → Option World
  unfolding attach destroy detach hangup jsondone janus_process_success
  on_session c root sid transaction text p h w =
      if strcasecmp_eq text "keepalive"
      then some (jsondone h (some p) (grant c "ack" sid transaction w))
      else if strcasecmp_eq text "attach"
      then attach c root sid transaction text p h w
      else if strcasecmp_eq text "destroy"
      then destroy c sid transaction text p h w
      else if strcasecmp_eq text "detach"
      then detach c sid transaction text p h w
      else if strcasecmp_eq text "hangup"
      then hangup c sid transaction text p h w
      else if strcasecmp_eq text "claim"
      then some (jsondone h (some p) (grant c "success" sid transaction w))
      else some (jsondone h (some p) (called (handle_request p (number h) text ∷ []) w))
