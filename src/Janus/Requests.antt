-- ===== src/Janus/Requests.antt =====
-- janus/src/pjanus.c, `janus_process_incoming_request`: the requests that make, use and end sessions and
-- handles. What ends in `jsondone` gives back the references to the handle and the session that the
-- request took. `none` is a read through NULL or a dangling pointer, or a loop that goes on.
pub mod Handles
use kore_io_websocket.Base.{
  ℕ, List, [], ◌∷◌, Bool, true, false, not, ◌&&◌, ◌||◌, String, Option, none, some, ltb, ◌==◌,
  if◌then◌else◌,
}
use kore_io_websocket.Soup.Jansson.{Jansson}
use kore_io_websocket.Janus.{
  World, Session, Reply, message, info, ErrorCode, Reason, unauthorized, invalid_request_path,
  not_accepting_sessions, session_conflict, session_not_found, handle_not_found, invalid, standard,
  id_in_use, cause, unhandled, no_such_session, no_such_handle, called, handle_down,
}
use kore_io_websocket.Janus.Sessions.{
  set_session, janus_session_find, janus_session_handles_find, refcount_increase, refcount_decrease,
  draw_session_id, enter_session,
}
use kore_io_websocket.Janus.Core.{Core, text_at, integer_at}
use kore_io_websocket.Janus.Replies.{janus_process_success, janus_process_error}
use kore_io_websocket.Janus.Requests.Handles.{
  with_usi, set_sid, keep_hid, attach, attach_to, handle_made, plug_in, on_session, jsondone,
}

abbrev pub used : ℕ → ℕ → World → World
used p now w = set_session p (record (w.session p) { last_activity = now }) w

module _ (J : Jansson) (C : Core J) where
  open J use {Json, object_get, integer_value, string_value}
  open C use {
    dumps, request_error, strcasecmp_eq, accept_new_sessions, api_secret, same_secret,
    auth_is_enabled, check_token,
  }

  gives : Option String → (String → Bool) → Bool
  gives none ok = false
  gives (some t) ok = ok t

  has_secret : Option String → Option String → Bool
  unfolding gives
  has_secret none given = false
  has_secret (some key) given = gives given (λ t. same_secret t key)

  nothing_to_check : Option String → Bool
  nothing_to_check none = not auth_is_enabled
  nothing_to_check (some key) = false

  -- The request may go on: the function gives 0.
  unfoldable pub janus_request_check_secret : Json → Bool
  unfolding gives has_secret nothing_to_check
  janus_request_check_secret root =
      if nothing_to_check api_secret
      then true
      else has_secret api_secret (text_at J root "apisecret")
        || (auth_is_enabled && gives (text_at J root "token") check_token)

  abbrev refuse : ℕ → ℕ → String → ErrorCode → Reason → World → World
  refuse c sid transaction code reason w =
      janus_process_error dumps c sid (some transaction) code reason w

  -- The session is in the table and its creator knows it; the request gives its own reference back.
  unfoldable pub introduce : ℕ → String → ℕ → World → ℕ → Option World
  unfolding janus_process_success jsondone refcount_increase
  introduce c transaction id w p = elim (set_sid c id (refcount_increase p w)) [
    | none ↦ none
    | some w' ↦ some (
        jsondone none (some p)
          (janus_process_success dumps c (message "success" 0 transaction (some id)) w'))
  ]

  unfoldable pub make : ℕ → String → ℕ → ℕ → World → Option World
  unfolding enter_session
  make c transaction now id w =
      let (p, w') = enter_session id now w in introduce c transaction id w' p

  unfoldable pub choose : ℕ → String → ℕ → ℕ → Option ℕ → World → Option World
  unfolding janus_process_error jsondone
  choose c transaction now id none w = make c transaction now id w
  choose c transaction now id (some p) w =
      some (jsondone none (some p) (refuse c id transaction session_conflict id_in_use w))

  unfoldable pub drawn : ℕ → String → ℕ → Option (ℕ × World) → Option World
  drawn c transaction now none = none
  drawn c transaction now (some (id, w)) = make c transaction now id w

  -- janus_session_create: an identifier of 0 is drawn.
  unfoldable pub with_id : ℕ → String → ℕ → List ℕ → ℕ → World → Option World
  unfolding janus_session_find
  with_id c transaction now draws id w =
      if id == 0
      then drawn c transaction now (draw_session_id draws w)
      else let (p, w') = janus_session_find id w in choose c transaction now id p w'

  unfoldable pub given_id : Json → ℕ
  given_id root = elim (integer_at J root "id") [ none ↦ 0 | some id ↦ id ]

  unfoldable pub create_session : ℕ → Json → String → ℕ → List ℕ → World → Option World
  unfolding given_id janus_request_check_secret janus_process_error
  create_session c root transaction now draws w =
      if not accept_new_sessions
      then some (refuse c 0 transaction not_accepting_sessions standard w)
      else if not (janus_request_check_secret root)
      then some (refuse c 0 transaction unauthorized standard w)
      else with_id c transaction now draws (given_id root) w

  unfoldable pub without_session : ℕ → Json → String → String → ℕ → List ℕ → World → Option World
  unfolding janus_process_success janus_process_error
  without_session c root transaction text now draws w =
      if strcasecmp_eq text "info"
      then some (janus_process_success dumps c (info transaction) w)
      else if strcasecmp_eq text "ping"
      then some (janus_process_success dumps c (message "pong" 0 transaction none) w)
      else if not (strcasecmp_eq text "create")
      then some (refuse c 0 transaction invalid_request_path (unhandled text) w)
      else create_session c root transaction now draws w

  -- `found` is what janus_session_handles_find gives.
  unfoldable pub on_handle :
      ℕ → Json → ℕ → ℕ → String → String → ℕ → Option ℕ → World → Option World
  unfolding janus_process_error jsondone
  on_handle c root sid hid transaction text p none w = some (
      jsondone none (some p) (refuse c sid transaction handle_not_found (no_such_handle hid sid) w))
  on_handle c root sid hid transaction text p (some h) w =
      on_session J C c root sid transaction text p (some h) w

  unfoldable pub found_session :
      ℕ → Json → ℕ → ℕ → String → String → ℕ → Option ℕ → World → Option World
  unfolding janus_session_handles_find janus_process_error
  found_session c root sid hid transaction text now none w =
      some (refuse c sid transaction session_not_found (no_such_session sid) w)
  found_session c root sid hid transaction text now (some p) w =
      if ltb 0 hid
      then (let (h, w') = janus_session_handles_find p hid (used p now w) in
          on_handle c root sid hid transaction text p h w')
      else on_session J C c root sid transaction text p none (used p now w)

  is_present : Option Json → Bool
  is_present none = false
  is_present (some j) = true

  unfoldable pub with_session : ℕ → Json → ℕ → ℕ → String → String → ℕ → World → Option World
  unfolding is_present janus_request_check_secret janus_session_find janus_process_error
  with_session c root sid hid transaction text now w =
      if sid == 0
      then some (refuse c sid transaction session_not_found standard w)
      else if is_present (object_get root "handle_id") && hid == 0
      then some (refuse c sid transaction session_not_found standard w)
      else if not (janus_request_check_secret root)
      then some (refuse c sid transaction unauthorized standard w)
      else let (p, w') = janus_session_find sid w in
        found_session c root sid hid transaction text now p w'

  abbrev number : Option ℕ → ℕ
  number none = 0
  number (some n) = n

  unfoldable pub routed :
      ℕ → Json → ℕ → ℕ → Option String → Option String → ℕ → List ℕ → World → Option World
  routed c root sid hid none text now draws w = none
  routed c root sid hid (some t) none now draws w = none
  routed c root sid hid (some t) (some text) now draws w =
      if sid == 0 && hid == 0
      then without_session c root t text now draws w
      else with_session c root sid hid t text now w

  unfoldable pub checked : Option (ℕ × String) → ℕ → Json → ℕ → List ℕ → World → Option World
  unfolding janus_process_error
  checked none c root now draws w =
      routed c root (number (integer_at J root "session_id"))
        (number (integer_at J root "handle_id")) (text_at J root "transaction")
        (text_at J root "janus") now draws w
  checked (some (code, text)) c root now draws w = some (
      janus_process_error dumps c (number (integer_at J root "session_id")) none (invalid code)
        (cause text) w)

  -- `now` is janus_get_monotonic_time(), `draws` what janus_random_uint64 gives.
  unfoldable pub janus_process_incoming_request : ℕ → Json → ℕ → List ℕ → World → Option World
  unfolding checked routed without_session with_session create_session with_id choose drawn make
      introduce found_session on_handle on_session attach attach_to handle_made plug_in keep_hid
      set_sid with_usi draw_session_id
  janus_process_incoming_request c root now draws w =
      checked (request_error root) c root now draws w
