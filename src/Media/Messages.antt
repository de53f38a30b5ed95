-- ===== src/Media/Messages.antt =====
-- mediasoup_1/src/mediasoup_1.c, the handlers of a websocket and `on_from_cpp`, with `create_room` of
-- mediasoup_1/src/kore_media.c. The texts of jansson are those of Soup/Jansson.
pub mod Dispatch
use text.Mathlib.Text.{◌==◌ as str_eq}
use mathlib.Core.Option
use Prim.Native.String.{len}
use kore_io_websocket.Base.{ℕ, List, [], ◌∷◌, String, Option, none, some, ◌==◌, if◌then◌else◌}
use kore_io_websocket.Soup.Jansson.{Jansson}
use kore_io_websocket.Media.Numbers.{random_u32}

-- Calls that leave the program: to one websocket, to all, to the C++ worker.
pub data Event : Type 0 where
  kore_websocket_send : ℕ → ℕ → String → ℕ → Event
  kore_websocket_broadcast : ℕ → String → ℕ → ℕ → Event
  uv_callback_fire : Option String → Event
  uv_stop : Event
  free_data : Event

-- `medias` is the global media object, 0 where there is none; `rands` are the values of `rand()` to come.
pub record State : Type 0 where
  pub medias : ℕ
  pub pidor : ℕ
  pub rands : List ℕ
  pub trace : List Event

-- `fault` is a read through NULL; `starved` says that the values of `rand()` are used up.
pub data Run : Type 0 where
  ok : State → Run
  fault : Run
  starved : Run

abbrev emit : Event → State → Run
emit e s = ok (record s { trace = e ∷ s.trace })

abbrev pub delete_room_text : String
delete_room_text =
    "{\"id\":3444444333,\"method\":\"room.close\",\"internal\":{\"roomId\":35,\"sister\":\"sister_1\"},\"data\":{\"a\":1}}"

abbrev pub room_dump_text : String
room_dump_text =
    "{\"id\":3444444333,\"method\":\"room.createPeer\",\"internal\":{\"roomId\":35,\"sister\":\"sister_1\"},\"data\":{\"a\":1}}"

module _ (J : Jansson) where
  open J use {Json, object, string, integer, object_set}

  unfoldable pub room_request : ℕ → ℕ → Json
  room_request req_id room_id =
      let head =
        object_set (object_set object "id" (integer req_id)) "method"
          (string "worker.createRoom") in
      let internal =
        object_set (object_set object "roomId" (integer room_id)) "sister" (string "sister_1") in
      object_set (object_set head "internal" internal) "data" (object_set object "a" (integer 1))

  greeting : Json
  greeting = object_set (object_set object "type" (string "ack")) "msg" (string "hello!")

  unfoldable pub result_reply : String → Json
  result_reply text = object_set (object_set object "type" (string "on_result")) "msg" (string text)

-- A text of no bytes, or none, is not sent.
unfoldable pub send_text : (String → Event) → Option String → State → Run
send_text call none s = ok s
send_text call (some text) s = if len text == 0 then ok s else emit (call text) s

-- `dumps` is `json_dumpb(…, 0)`, and `dumps_indented` is `json_dumps(…, 12)`.
module _ (J : Jansson) (dumps_indented : J.Json → Option String) where
  open J use {Json, object_get, string_value, dumps, loads}

  with_room_id : ℕ → Option (ℕ × List ℕ) → State → Run
  unfolding room_request
  with_room_id req_id none s = starved
  with_room_id req_id (some (room_id, rands)) s =
      emit (uv_callback_fire (dumps_indented (room_request J req_id room_id)))
        (record s { rands = rands })

  with_req_id : Option (ℕ × List ℕ) → State → Run
  unfolding with_room_id random_u32
  with_req_id none s = starved
  with_req_id (some (req_id, rands)) s = with_room_id req_id (random_u32 rands) s

  -- `create_room`: nothing happens without a media object.
  unfoldable pub create_room : ℕ → State → Run
  unfolding with_req_id random_u32
  create_room m s = if m == 0 then ok s else with_req_id (random_u32 s.rands) s

  -- The `strcmp` chain of `websocket_message`.
  by_type : ℕ → ℕ → String → ℕ → String → State → Run
  unfolding create_room
  by_type c op text n kind s =
      if str_eq kind "message"
      then emit (kore_websocket_send c op text n) s
      else if str_eq kind "create_room"
      then create_room s.medias s
      else if str_eq kind "delete_room"
      then emit (uv_callback_fire (some delete_room_text)) s
      else if str_eq kind "room_dump"
      then emit (uv_callback_fire (some room_dump_text)) s
      else ok s

  on_type : ℕ → ℕ → String → ℕ → Option String → State → Run
  unfolding by_type
  on_type c op text n none s = fault
  on_type c op text n (some kind) s = by_type c op text n kind s

  on_root : ℕ → ℕ → String → ℕ → Option Json → State → Run
  unfolding on_type
  on_root c op text n none s = ok s
  on_root c op text n (some root) s =
      on_type c op text n (Option.bind (object_get root "type") string_value) s

  unfoldable pub websocket_message : ℕ → ℕ → Option String → ℕ → State → Run
  unfolding on_root
  websocket_message c op none n s = ok s
  websocket_message c op (some text) n s = on_root c op text n (loads text) s

  unfoldable pub websocket_connect : ℕ → State → Run
  unfolding greeting send_text
  websocket_connect c s =
      send_text (λ (text : String). kore_websocket_send c 1 text (len text)) (dumps (greeting J)) s

  -- The text of the C++ side is freed only where it was JSON, and not where no reply is made.
  free_if : Option Json → State → Run
  free_if none s = ok s
  free_if (some root) s = emit free_data s

  broadcast_result : Option Json → Option String → State → Run
  unfolding free_if
  broadcast_result parsed none s = ok s
  broadcast_result parsed (some reply) s =
      if len reply == 0
      then ok s
      else free_if parsed
          (record s { trace = kore_websocket_broadcast 1 reply (len reply) 56 ∷ s.trace })

  unfoldable pub on_from_cpp : Option String → State → Run
  unfolding broadcast_result result_reply
  on_from_cpp none s = ok s
  on_from_cpp (some text) s =
      if str_eq text "exit"
      then emit uv_stop (record s { pidor = 1 })
      else broadcast_result (loads text) (dumps (result_reply J text)) s
