-- ===== src/Media/Examples/Messages.antt =====
-- The theorems on the messages of mediasoup_1/src/mediasoup_1.c at one client.
use text.Mathlib.Text.{◌==◌ as str_eq}
use text.Mathlib.TextEquality.{eq_iff}
use mathlib.Core.Option
use kore_io_websocket.Base.{◌≡◌, refl, [], ◌∷◌, String, Option, none, some, if◌then◌else◌, arith}
use kore_io_websocket.Soup.Jansson.{Jansson}
use kore_io_websocket.Soup.Examples.{
  Json, words, number, empty, member, same, same_sound, get, jansson,
}
use kore_io_websocket.Media.Messages.{
  State, ok, uv_callback_fire, kore_websocket_broadcast, websocket_message, on_from_cpp,
  result_reply, room_request,
}
use kore_io_websocket.Media.Messages.Dispatch.{create_room_asks, result_reaches_all, drawn, Reads}

-- The request for a room, with the numbers that the values 7 and 8 of `rand()` give.
abbrev request : Json
request =
    member
      (member (member (member empty "id" (number (drawn 7))) "method" (words "worker.createRoom"))
        "internal" (member (member empty "roomId" (number (drawn 8))) "sister" (words "sister_1")))
      "data" (member empty "a" (number 1))

abbrev asking : Json
asking = member empty "type" (words "create_room")

abbrev print : Json → Option String
print j = if same j request then some "request" else none

abbrev parse : String → Option Json
parse t =
    if str_eq t "request" then some request else if str_eq t "asking" then some asking else none

pub parse-print : (j : Json) (t : String) → print j ≡ some t → parse t ≡ some j
parse-print j t h = ground (arith, same_sound j request, eq_iff t "request")

abbrev two_texts : Jansson
two_texts = record (jansson request "request") {
  loads = parse;
  dumps = print;
  loads-dumps = parse-print;
}

abbrev started : State
started = record { medias = 1; pidor = 0; rands = 7 ∷ 8 ∷ 9 ∷ []; trace = [] }

printed : print (room_request two_texts (drawn 7) (drawn 8)) ≡ some "request"
unfolding room_request
printed = refl

create_room_asks_example :
    (websocket_message two_texts print 3 1 (some "asking") 24 started
      ≡ ok (record started { rands = 9 ∷ []; trace = uv_callback_fire (some "request") ∷ [] }))
    × (asked : Json) × (parse "request" ≡ some asked)
    × Reads two_texts (drawn 7) (drawn 8) asked
unfolding Option.bind
create_room_asks_example =
    create_room_asks two_texts print 3 1 24 7 8 (9 ∷ []) "asking" "request" asking started refl refl
      (omega arith) refl (omega arith) (omega arith) printed parse-print

abbrev reply : Json
reply = member (member empty "type" (words "on_result")) "msg" (words "{}")

abbrev replying : Jansson
replying = jansson reply "reply"

replied : replying.dumps (result_reply replying "{}") ≡ some "reply"
unfolding result_reply
replied = refl

result_reaches_all_example :
    (on_from_cpp replying replying.dumps (some "{}") started
      ≡ ok (record started { trace = kore_websocket_broadcast 1 "reply" 5 56 ∷ [] }))
    × (parsed : Json) × (replying.loads "reply" ≡ some parsed)
    × (get parsed "msg" ≡ some (words "{}"))
result_reaches_all_example =
    result_reaches_all replying replying.dumps "{}" "reply" started refl replied (omega arith)
