-- ===== src/Janus/Replies.antt =====
-- janus/src/pjanus.c, `janus_process_success`, `janus_process_error_string` and `janus_process_error`:
-- a reply is written to the websocket, and its references are released.
use kore_io_websocket.Base.{ℕ, [], ◌∷◌, String, Option, none, some}
use kore_io_websocket.Janus.{
  World, Reply, ErrorCode, Reason, failure, called, kore_websocket_send, json_new, json_handed,
  json_decref, payload, reply, error_data,
}

-- `dumped` is what json_dumpb gives for the reply.
unfoldable pub answer_success : ℕ → Option String → World → World
answer_success c none w = called (json_new payload ∷ json_decref payload ∷ []) w
answer_success c (some text) w =
    called (json_new payload ∷ kore_websocket_send c text ∷ json_decref payload ∷ []) w

-- The object `error_data` is handed to the reply by json_object_set_new, which takes the reference.
unfoldable pub answer_error : ℕ → Option String → World → World
answer_error c none w =
    called
      (json_new reply
        ∷ json_new error_data
        ∷ json_handed error_data
        ∷ json_decref error_data
        ∷ json_decref reply
        ∷ [])
      w
answer_error c (some text) w =
    called
      (json_new reply
        ∷ json_new error_data
        ∷ json_handed error_data
        ∷ json_decref error_data
        ∷ json_decref reply
        ∷ kore_websocket_send c text
        ∷ [])
      w

module _ (dumps : Reply → Option String) where
  unfoldable pub janus_process_success : ℕ → Reply → World → World
  unfolding answer_success
  janus_process_success c r w = answer_success c (dumps r) w

  unfoldable pub janus_process_error : ℕ → ℕ → Option String → ErrorCode → Reason → World → World
  unfolding answer_error
  janus_process_error c sid transaction code reason w =
      answer_error c (dumps (failure sid transaction code reason)) w
