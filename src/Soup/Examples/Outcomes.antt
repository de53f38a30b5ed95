-- ===== src/Soup/Examples/Outcomes.antt =====
-- The theorems on the outcomes of a request of mediasoup/src at one client and its letter.
use text.Mathlib.Text.{◌==◌ as str_eq}
use mathlib.Core.Option
use kore_io_websocket.Base.{◌≡◌, refl, [], ◌∷◌, false, String, none, some, arith}
use kore_io_websocket.Soup.Names.{event_name}
use kore_io_websocket.Soup.World.{wait, Soup, Postman, World, ee_on, ok, fault, update}
use kore_io_websocket.Soup.Channel.{with_error}
use kore_io_websocket.Soup.Requests.{timer_fires, invoke_for_dummy, js_get_uint32}
use kore_io_websocket.Soup.Requests.Outcomes.{
  Pending, settled, told, accepted_opens_room, timeout_settles,
}
use kore_io_websocket.Soup.Clients.{websocket_disconnect}
use kore_io_websocket.Soup.Clients.Lifetime.{gone, disconnect_dangles}
use kore_io_websocket.Soup.Examples.{Json, words, number, empty, member}
use kore_io_websocket.Soup.Examples.Requests.{client, world, plain}

-- The letter of that client: at the address 60, with the timer 7.
abbrev waits : String → Soup
waits name = client name wait 10000005

abbrev du : Postman
du = record { at = 60; id = 10000005; soupi = 1; timer = some 7 }

abbrev busy : String → World
busy name = world (waits name) (du ∷ []) (record { handle = 7; arg = 1 } ∷ [])

busy-Pending : (name : String) → Pending (busy name) du (waits name) 7
busy-Pending name = record {
  addressed = refl;
  not_null = ground arith;
  alive = refl;
  bound = refl;
  armed = refl;
  same_id = refl;
}

-- A response to the id 10000005 with one more member.
abbrev response : String → Json
response key = member (member empty "id" (number 10000005)) key (words "x")

response-id :
    (key : String) → str_eq key "id" ≡ false → js_get_uint32 plain (response key) "id" ≡ 10000005
unfolding js_get_uint32 Option.bind
response-id key h = ground arith

abbrev room_told : World
room_told =
    told plain (busy "worker.createRoom") du (waits "worker.createRoom") 7 3 (response "accepted")
      (busy-Pending "worker.createRoom")

accepted_opens_room_example :
    invoke_for_dummy plain 3 (response "accepted") (busy "worker.createRoom")
    ≡ ok tt (record room_told {
      rooms = update (λ q. none) 60 (some (record { room_id = 12345678; ch = 3 }));
      passes = update (λ q. none) 70 (some (record { ch = 3; r = 60; str = event_name 12345678 }));
      mallocs = [];
      tmp_room = 60;
      trace = ee_on (event_name 12345678) 70 ∷ room_told.trace;
    })
accepted_opens_room_example =
    accepted_opens_room plain (busy "worker.createRoom") du (waits "worker.createRoom") 7 3
      (response "accepted") (busy-Pending "worker.createRoom") (record { ch = 3 }) 60 70 [] refl
      (ground arith) refl (ground arith) refl refl (ground arith) (ground arith) refl
      (response-id "accepted" refl) refl

timeout_settles_example :
    timer_fires (record { handle = 7; arg = 1 }) (busy "worker.dump")
    ≡ ok tt (
        settled
          (busy "worker.dump")
          du
          (with_error "***TIMEOUT!***" (waits "worker.dump"))
          7
          "***TIMEOUT!***"
          14)
timeout_settles_example =
    timeout_settles (busy "worker.dump") du (waits "worker.dump") 7 (busy-Pending "worker.dump")

disconnect_dangles_example :
    (websocket_disconnect 9 (busy "worker.dump") ≡ ok tt (gone (busy "worker.dump") 9 1))
    × (timer_fires (record { handle = 7; arg = 1 }) (gone (busy "worker.dump") 9 1) ≡ fault)
    × (invoke_for_dummy plain 3 (response "accepted") (gone (busy "worker.dump") 9 1) ≡ fault)
disconnect_dangles_example =
    disconnect_dangles plain (busy "worker.dump") du (waits "worker.dump") 7 9 3
      (response "accepted") (busy-Pending "worker.dump") refl refl (response-id "accepted" refl)
      refl
