-- ===== src/Soup/Examples/Requests.antt =====
-- The theorems on the requests of mediasoup/src at one client and its letter.
use kore_io_websocket.Base.{
  ℕ, ◌≤◌, ◌≡◌, refl, List, [], ◌∷◌, false, String, none, some, if◌then◌else◌, ◌==◌, arith,
}
use kore_io_websocket.Soup.Jansson.{Jansson}
use kore_io_websocket.Soup.Random.{
  id_min, id_max, random_u32, rand32, first_below, limit_of, range_of,
}
use kore_io_websocket.Soup.World.{
  SoupState, init, we_can_work_it_out, Soup, Postman, Timer, World, ws_send, fire_to_cpp, ok,
  update,
}
use kore_io_websocket.Soup.Channel.{id_lookup, draw_id, set_id, with_error, waiting}
use kore_io_websocket.Soup.Channel.Frame.{heard}
use kore_io_websocket.Soup.Requests.{js_get_uint32, request_json, channel_send}
use kore_io_websocket.Soup.Requests.Outcomes.{Pending}
use kore_io_websocket.Soup.Requests.Sending.{Ready, letter, request, sent, send_waits, send_fails}
use kore_io_websocket.Soup.Requests.Texts.{request_carries}
use kore_io_websocket.Soup.Examples.{Json, empty, get, jansson}

-- The client at the address 1, with the connection 9.
abbrev pub client : String → SoupState → ℕ → Soup
client name state id = record {
  conn = 2;
  state = state;
  id = id;
  in_id = 12345678;
  error_text = none;
  name = some name;
  arg = 9;
  cb = some we_can_work_it_out;
  result_text = none;
}

abbrev pub world : Soup → List Postman → List Timer → World
world s letters timers = record {
  soups = update (λ q. none) 1 (some s);
  rooms = λ q. none;
  passes = λ q. none;
  servers = update (λ q. none) 2 (some (record { ch = 3 }));
  channels = λ q. q == 3;
  hdlr_extra = λ q. if q == 9 then 1 else 0;
  letters = letters;
  timers = timers;
  md_server = 2;
  tmp_room = 0;
  soup_unavailable = 0;
  putin = 0;
  need_exit = 0;
  mallocs = 60 ∷ 70 ∷ [];
  rands = 5 ∷ [];
  handles = 7 ∷ [];
  fires = 0 ∷ [];
  trace = [];
}

abbrev idle : World
idle = world (client "worker.dump" init 0) [] []

idle-Ready : Ready idle 1 (client "worker.dump" init 0) 60 10000005 7 0 (70 ∷ []) [] [] []
unfolding draw_id random_u32 rand32 first_below limit_of range_of
idle-Ready = record {
  not_null = ground arith;
  alive = refl;
  idle = refl;
  bound = refl;
  memory = refl;
  memory_ok = ground arith;
  drawn = refl;
  timer = refl;
  answer = refl;
}

abbrev refusing : World
refusing = record idle { fires = 1 ∷ [] }

refusing-Ready : Ready refusing 1 (client "worker.dump" init 0) 60 10000005 7 1 (70 ∷ []) [] [] []
unfolding draw_id random_u32 rand32 first_below limit_of range_of
refusing-Ready = record {
  not_null = ground arith;
  alive = refl;
  idle = refl;
  bound = refl;
  memory = refl;
  memory_ok = ground arith;
  drawn = refl;
  timer = refl;
  answer = refl;
}

-- The library that reads and prints the empty object.
abbrev pub plain : Jansson
plain = jansson empty "{}"

abbrev after_taken : World
after_taken =
    sent plain idle 1 (client "worker.dump" init 0) 60 10000005 7 0 (70 ∷ []) [] [] [] idle-Ready
      "{}" empty

send_waits_example :
    (channel_send plain 1 "{}" empty idle ≡ ok tt after_taken)
    × Pending after_taken
        (letter 60 10000005 1 7)
        (waiting 10000005 (client "worker.dump" init 0))
        7
    × (id_min ≤ 10000005)
    × (10000005 ≤ id_max)
    × (id_lookup 10000005 [] ≡ false)
send_waits_example =
    send_waits plain idle 1 (client "worker.dump" init 0) 60 10000005 7 0 (70 ∷ []) [] [] []
      idle-Ready "{}" empty refl

abbrev after_refused : World
after_refused =
    sent plain refusing 1 (client "worker.dump" init 0) 60 10000005 7 1 (70 ∷ []) [] [] []
      refusing-Ready "{}" empty

send_fails_example :
    channel_send plain 1 "{}" empty refusing
    ≡ ok tt (record after_refused {
      soups = update refusing.soups 1 (
          some (
            set_id 0 (
              heard (
                with_error "data to send failed."
                  (waiting 10000005 (client "worker.dump" init 0))))));
      letters = [];
      timers = [];
      trace =
          ws_send 9 "data to send failed." 20
          ∷ fire_to_cpp (
              request plain refusing 1
                (client "worker.dump" init 0)
                60
                10000005
                7
                1
                (70 ∷ [])
                []
                []
                []
                refusing-Ready
                "{}"
                empty)
          ∷ [];
    })
send_fails_example =
    send_fails plain refusing 1 (client "worker.dump" init 0) 60 10000005 7 1 (70 ∷ []) [] [] []
      refusing-Ready "{}" empty (ground arith)

-- A request with the id 77 and the options {}.
abbrev asking : Json
asking = request_json plain (some "worker.dump") 77 empty (some empty)

abbrev printer : Jansson
printer = jansson asking "request"

printed :
    printer.dumps (request_json printer (some "worker.dump") 77 empty (some empty)) ≡ some "request"
unfolding request_json
printed = refl

request_carries_example :
    (root : Json) × (printer.loads "request" ≡ some root)
    × (js_get_uint32 printer root "id" ≡ 77)
    × (get root "internal" ≡ some empty)
    × (get root "data" ≡ some empty)
request_carries_example =
    request_carries printer (some "worker.dump") 77 empty empty "request" (omega arith) printed
