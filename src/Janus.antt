-- ===== src/Janus.antt =====
-- janus: the WebRTC gateway Janus, built into a Kore worker. Modelled are janus/src/janus.c, which is
-- the repository's own, and the parts of janus/src/pjanus.c through which it keeps sessions: the table
-- of sessions with their reference counts, and the requests that make, use and end them.
use kore_io_websocket.Base.{
  ℕ, List, ◌++◌, Bool, true, String, Option, none, [], ◌==◌, if◌then◌else◌,
}
pub mod Sessions
pub mod Replies
pub mod Core
pub mod Requests
pub mod Target
pub mod Handlers
pub mod Counts
pub mod Balance
pub mod Frames
pub mod Lives
pub mod Releases
pub mod Total
mod Examples

-- `struct usi`
pub record Usi : Type 0 where
  pub sid : ℕ
  pub hid : ℕ
  pub aw : ℕ

-- `struct janus_session`: its count `ref`, the identifiers of its handles, and when it was last used.
pub record Session : Type 0 where
  pub session_id : ℕ
  pub ref : ℕ
  pub destroyed : Bool
  pub last_activity : ℕ
  pub ice_handles : List ℕ

-- `JANUS_ERROR_…`; `invalid` is the code that a validation gives.
pub data ErrorCode : Type 0 where
  unauthorized invalid_request_path not_accepting_sessions session_conflict : ErrorCode
  session_not_found handle_not_found plugin_not_found unauthorized_plugin : ErrorCode
  plugin_attach plugin_detach unknown : ErrorCode
  invalid : ℕ → ErrorCode

-- The text of an error: `standard` is that of `janus_get_api_error`.
pub data Reason : Type 0 where
  standard id_in_use memory_error no_plugin_attached no_plugin_to_detach : Reason
  cause unhandled no_such_plugin : String → Reason
  no_such_session attach_failed detach_failed : ℕ → Reason
  no_such_handle : ℕ → ℕ → Reason
  token_refused : String → String → Reason

pub data Reply : Type 0 where
  info : String → Reply
  -- janus_create_message(janus, session_id, transaction), with `data.id` if there is one
  message : String → ℕ → String → Option ℕ → Reply
  failure : ℕ → Option String → ErrorCode → Reason → Reply

-- The values of jansson whose references `janus_process_error_string` and `websocket_message` release.
pub data Value : Type 0 where
  root reply error_data payload : Value

pub data Call : Type 0 where
  kore_websocket_send : ℕ → String → Call
  echo : ℕ → ℕ → String → Call
  net_send : ℕ → List ℕ → Call
  -- janus_refcount_increase(&handle->ref), janus_refcount_decrease(&handle->ref)
  handle_up handle_down : ℕ → Call
  janus_ice_handle_destroy : ℕ → Call
  janus_ice_webrtc_hangup : ℕ → Call
  -- a reference is made, handed to an object, released
  json_new json_handed json_decref : Value → Call
  kore_malloc kore_free : ℕ → Call
  -- the requests on a handle that are not modelled, and the administrator's
  handle_request : ℕ → ℕ → String → Call
  admin_request : ℕ → Call

-- `sessions` is the hash table from identifiers to addresses, `session` what is stored at an address,
-- `fresh` an address that was never used. `usi` is what `hdlr_extra` points to, and 0 is NULL.
pub record World : Type 0 where
  pub sessions : List (ℕ × ℕ)
  pub session : ℕ → Session
  pub fresh : ℕ
  pub usi : ℕ → Option Usi
  pub hdlr_extra : ℕ → ℕ
  pub saka : ℕ
  pub calls : List Call

abbrev pub update {ℓ} : {A : Type ℓ} → (ℕ → A) → ℕ → A → ℕ → A
update f k a j = if j == k then a else f j

abbrev pub called : List Call → World → World
called more w = record w { calls = w.calls ++ more }

-- An address at which no session was stored yet.
abbrev pub blank : Session
blank = record { session_id = 0; ref = 0; destroyed = true; last_activity = 0; ice_handles = [] }
