-- ===== src/Soup/Examples/Lives.antt =====
-- The theorems on the start and the end of mediasoup/src at one worker.
use kore_io_websocket.Base.{◌≡◌, refl, [], ◌∷◌, false, arith}
use kore_io_websocket.Soup.Jansson.{Jansson}
use kore_io_websocket.Soup.Random.{random_u32, rand32, first_below, limit_of, range_of}
use kore_io_websocket.Soup.World.{init, World, ok}
use kore_io_websocket.Soup.Channel.{id_lookup, draw_id}
use kore_io_websocket.Soup.Requests.Outcomes.{Pending}
use kore_io_websocket.Soup.Requests.Sending.{letter}
use kore_io_websocket.Soup.Server.{websocket_connect, greeting}
use kore_io_websocket.Soup.Server.Connects.{Answers, newcomer, joined, connect_asks}
use kore_io_websocket.Soup.Examples.{jansson}
use kore_io_websocket.Soup.Examples.Requests.{client, world, plain}

abbrev pub up : World
up = record (world (client "none" init 0) [] []) { rands = 5 ∷ 6 ∷ [] }

pub up-Answers : Answers up (record { ch = 3 }) 60 70 10000005 10000006 7 [] (6 ∷ []) [] [] []
unfolding draw_id random_u32 rand32 first_below limit_of range_of
up-Answers = record {
  up = ground arith;
  serves = refl;
  linked = ground arith;
  channel = refl;
  memory = refl;
  client_ok = ground arith;
  letter_ok = ground arith;
  room_drawn = refl;
  id_drawn = refl;
  timer = refl;
  taken = refl;
}

-- The library that prints the greeting.
abbrev pub greeter : Jansson
greeter = jansson (greeting plain) "hello"

abbrev pub after_connect : World
after_connect =
    joined greeter up (record { ch = 3 }) 60 70 10000005 10000006 7 8 [] (6 ∷ []) [] [] []
      up-Answers "{}" "hello"

connect_asks_example :
    (websocket_connect greeter "{}" 8 up ≡ ok tt after_connect)
    × Pending after_connect
        (letter 70 10000006 60 7)
        (newcomer greeter up
          (record { ch = 3 })
          60
          70
          10000005
          10000006
          7
          8
          []
          (6 ∷ [])
          []
          []
          []
          up-Answers
          "{}"
          "hello")
        7
    × (after_connect.hdlr_extra 8 ≡ 60)
    × (id_lookup 10000006 [] ≡ false)
connect_asks_example =
    connect_asks greeter up (record { ch = 3 }) 60 70 10000005 10000006 7 8 [] (6 ∷ []) [] [] []
      up-Answers "{}" "hello" refl

abbrev one_letter : World
one_letter =
    world (client "none" init 5) (letter 60 10000005 1 7 ∷ []) (record { handle = 7; arg = 1 } ∷ [])
