-- ===== src/Janus/Examples.antt =====
-- The theorems on janus at a concrete library, core and world.
use text.Mathlib.Text.{◌==◌ as str_eq}
use kore_io_websocket.Base.{
  ℕ, ◌+◌, ◌≡◌, refl, List, [], ◌∷◌, true, false, String, Option, none, some, arith,
}
use kore_io_websocket.Soup.Jansson.{Jansson}
use kore_io_websocket.Soup.Examples.{Json, words, number, empty, member, jansson}
use kore_io_websocket.Websocket.Rooms.{Connection, websocket, other}
use kore_io_websocket.Janus.{
  World, Usi, Session, blank, update, unknown, standard, error_data, reply,
}
use kore_io_websocket.Janus.Core.{Core, text_at}
use kore_io_websocket.Janus.Sessions.{lookup, holds}
use kore_io_websocket.Janus.Replies.{janus_process_error}
use kore_io_websocket.Janus.Handlers.{websocket_disconnect}
use kore_io_websocket.Janus.Counts.{Even}
use kore_io_websocket.Janus.Total.{requests_total, draws_free}
use kore_io_websocket.Janus.Lives.{Serves, disconnect_leaks_session, stale_handle_keeps_session}
use kore_io_websocket.Janus.Releases.{made, given, error_overreleases}

abbrev request : Json
request =
    member (member (member empty "transaction" (words "a")) "janus" (words "destroy")) "session_id"
      (number 7)

abbrev json : Jansson
json = jansson request "{}"

abbrev required : Option String → Option String → Option (ℕ × String)
required none u = some (456, "transaction")
required (some t) none = some (456, "janus")
required (some t) (some u) = none

abbrev check : Json → Option (ℕ × String)
check j = required (text_at json j "transaction") (text_at json j "janus")

required_first : (t u : Option String) → required t u ≡ none → (s : String) × (t ≡ some s)
required_first none u e = absurd (ground arith)
required_first (some t) none e = absurd (ground arith)
required_first (some t) (some u) e = (t, refl)

required_second : (t u : Option String) → required t u ≡ none → (s : String) × (u ≡ some s)
required_second none u e = absurd (ground arith)
required_second (some t) none e = absurd (ground arith)
required_second (some t) (some u) e = (u, refl)

abbrev core : Core json
core = record {
  dumps = λ r. some "{}";
  request_error = check;
  attach_error_of = λ j. none;
  strcasecmp_eq = str_eq;
  accept_new_sessions = true;
  api_secret = none;
  same_secret = str_eq;
  auth_is_enabled = false;
  check_token = λ t. false;
  check_plugin = λ t p. false;
  has_plugin = λ p. true;
  new_handle = λ w s. some 9;
  attach_error = λ w h. 0;
  destroy_error = λ w h. 0;
  has_app = λ w h. true;
  has_transaction = λ j e. required_first (text_at json j "transaction") (text_at json j "janus") e;
  has_janus = λ j e. required_second (text_at json j "transaction") (text_at json j "janus") e;
}

-- The websocket 3 has the session 7, which is stored at the address 1; the websocket remembers `hid`.
abbrev session : Session
session = record { session_id = 7; ref = 1; destroyed = false; last_activity = 0; ice_handles = [] }

abbrev knows : ℕ → Usi
knows hid = record { sid = 7; hid = hid; aw = 0 }

abbrev world : ℕ → World
world hid = record {
  sessions = (7, 1) ∷ [];
  session = update (λ _. blank) 1 session;
  fresh = 2;
  usi = update (λ _. none) 50 (some (knows hid));
  hdlr_extra = update (λ _. 0) 3 50;
  saka = 0;
  calls = [];
}

world-Even : (q : ℕ) → Even q (world 0)
world-Even q = ground arith

serves : (hid : ℕ) → Serves 3 7 hid 1 (world hid)
serves hid = record {
  has_extra = refl;
  us = knows hid;
  known = refl;
  of_session = refl;
  of_handle = refl;
  is_session = omega arith;
  running = refl;
  entered = unfold lookup in refl;
  own_id = refl;
  lives = refl;
}

free : draws_free (5 ∷ []) (world 0).sessions ≡ true
unfolding lookup
free = refl

abbrev after_destroy : World
after_destroy = (requests_total json core 3 request 0 (5 ∷ []) (world 0) refl free).0

disconnect_leaks_session_example :
    (w' : World) × (websocket_disconnect json core 3 (world 0) ≡ some w')
    × (lookup 7 w'.sessions ≡ none)
    × ((w'.session 1).destroyed ≡ true)
    × ((w'.session 1).ref ≡ 1)
    × (w'.hdlr_extra 3 ≡ 0)
disconnect_leaks_session_example =
    disconnect_leaks_session json core 3 7 1 (world 0) (serves 0) (world-Even 1)

stale_handle_keeps_session_example :
    (w' : World) × (websocket_disconnect json core 3 (world 4) ≡ some w')
    × (lookup 7 w'.sessions ≡ some 1)
    × ((w'.session 1).destroyed ≡ false)
    × ((w'.session 1).ref ≡ 2)
    × (w'.hdlr_extra 3 ≡ 0)
stale_handle_keeps_session_example =
    stale_handle_keeps_session json core 3 7 1 (world 4) 4 (serves 4) (omega arith)
      (unfold holds in refl) refl

error_overreleases_example :
    let w' = janus_process_error (λ r. some "{}") 3 7 none unknown standard (world 0) in
    (made error_data w'.calls ≡ 0 + 1)
    × (given error_data w'.calls ≡ 0 + 2)
    × (made reply w'.calls ≡ 0 + 1)
    × (given reply w'.calls ≡ 0 + 1)
error_overreleases_example = error_overreleases (λ r. some "{}") 3 7 none unknown standard (world 0)

abbrev connections : List Connection
connections =
    record { ptr = 2; proto = other; hdlr_extra = 0 }
    ∷ record { ptr = 3; proto = websocket; hdlr_extra = 50 }
    ∷ []
