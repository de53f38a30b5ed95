-- ===== src/Soup/Server.antt =====
-- mediasoup/src/soup_server.c, `channel_new` and `channel_close` of mediasoup/src/channel.c, and the
-- handlers of mediasoup/src/mediasoup.c. The texts of jansson, Kore's connections (by address) and the
-- answers of the system are those of the world.
pub mod Connects
pub mod Ending
use Prim.Native.String.{len}
use kore_io_websocket.Base.{
  ℕ, List, [], ◌∷◌, Bool, true, false, String, Option, none, some, ◌==◌, if◌then◌else◌,
}
use kore_io_websocket.Soup.Jansson.{Jansson}
use kore_io_websocket.Soup.Random.{random_u32}
use kore_io_websocket.Soup.World.{
  init, we_can_work_it_out, Soup, Server, ws_send, ee_emit, soup_shutdown,
  utils_crypto_class_destroy, ok, starved, M, pure, when◌run◌otherwise◌, ◌>>=◌, ◌>>◌, gets, update,
  emit, malloc, load_soup, store_soup, load_server, load_channel,
}
use kore_io_websocket.Soup.Channel.{modify_soup}
use kore_io_websocket.Soup.Requests.{pending_close, channel_send}

unfoldable pub set_channel : ℕ → Bool → M (Unit {0})
set_channel p live w = ok tt (record w { channels = update w.channels p live })

unfoldable pub set_server : ℕ → Option Server → M (Unit {0})
set_server p s w = ok tt (record w { servers = update w.servers p s })

set_md_server : ℕ → M (Unit {0})
set_md_server p w = ok tt (record w { md_server = p })

unfoldable pub set_hdlr_extra : ℕ → ℕ → M (Unit {0})
set_hdlr_extra c p w = ok tt (record w { hdlr_extra = update w.hdlr_extra c p })

-- `LIST_INIT(&letters)`
forget_letters : M (Unit {0})
forget_letters w = ok tt (record w { letters = [] })

-- `ee_new` of the emitter library is one more answer of `malloc`.
channel_with : ℕ → M ℕ
unfolding set_channel malloc
channel_with ch =
    when ch == 0
    run pure 0
    otherwise (do ee ← malloc; when ee == 0 run pure 0 otherwise (do set_channel ch true; pure ch))

unfoldable pub channel_new : M ℕ
unfolding channel_with forget_letters malloc
channel_new = do forget_letters; ch ← malloc; channel_with ch

unfoldable pub channel_close : ℕ → M (Unit {0})
unfolding pending_close load_channel set_channel
channel_close ch = do pending_close; load_channel ch; set_channel ch false

server_with : ℕ → M ℕ
unfolding channel_new set_server malloc
server_with obj = when obj == 0 run pure 0 otherwise (do
  ee ← malloc
  when ee == 0 run pure 0 otherwise (do
    ch ← channel_new
    when ch == 0 run pure 0 otherwise (do set_server obj (some (record { ch = ch })); pure obj)))

unfoldable pub server_new : M ℕ
unfolding server_with malloc
server_new = do obj ← malloc; server_with obj

-- `libuv_task_init`, before it starts the task.
unfoldable pub libuv_task_init : M (Unit {0})
unfolding server_new set_md_server
libuv_task_init = do p ← server_new; set_md_server p

unfoldable pub md_destroy : ℕ → M (Unit {0})
unfolding load_server channel_close set_server
md_destroy serv = when serv == 0 run pure tt otherwise (do
  s ← load_server serv
  when s.ch == 0 run pure tt otherwise channel_close s.ch
  set_server serv none)

-- `closi`
abbrev pub close_text : List ℕ
close_text = b'c' ∷ b'l' ∷ b'o' ∷ b's' ∷ b'e' ∷ []

unfoldable pub server_close : M (Unit {0})
server_close = emit (ee_emit close_text)

unfoldable pub im_down : M (Unit {0})
im_down w =
    if w.soup_unavailable == 1
    then ok tt w
    else if w.putin == 1
    then ok tt (record w { need_exit = 1 })
    else if w.md_server == 0
    then ok tt (record w { need_exit = 1 })
    else ok tt (record w { need_exit = 1; trace = soup_shutdown 0 ∷ w.trace })

-- `han`, at the exit of the worker.
unfoldable pub at_exit : M (Unit {0})
unfolding md_destroy set_md_server
at_exit = do
  md ← gets (λ w. w.md_server)
  unavailable ← gets (λ w. w.soup_unavailable)
  when md == 0 run pure tt otherwise (do
    when unavailable == 0 run emit utils_crypto_class_destroy otherwise pure tt
    md_destroy md
    set_md_server 0)

-- `soup_init`, over memory that `kore_calloc` gave, with `soup_bind_callback`.
unfoldable pub soup_init : ℕ → M (Unit {0})
unfolding store_soup
soup_init p = do
  serv ← gets (λ w. w.md_server)
  store_soup p (record {
    conn = serv;
    state = init;
    id = 0;
    in_id = 0;
    error_text = none;
    name = none;
    arg = 0;
    cb = none;
    result_text = none;
  })

abbrev pub bound : ℕ → Soup → Soup
bound arg s = record s { cb = some we_can_work_it_out; arg = arg }

unfoldable pub soup_bind_callback : ℕ → ℕ → M (Unit {0})
unfolding modify_soup
soup_bind_callback p arg = modify_soup p (bound arg)

unfoldable pub random_id : M ℕ
unfolding random_u32
random_id w = elim (random_u32 w.rands) [
  | none ↦ starved
  | some (r, rest) ↦ ok r (record w { rands = rest })
]

-- `kore_calloc` never returns NULL.
kore_calloc : M ℕ
unfolding malloc
kore_calloc = do p ← malloc; when p == 0 run (λ w. starved) otherwise pure p

abbrev pub with_name : String → Soup → Soup
with_name n s = record s { name = some n }

abbrev pub with_in_id : ℕ → Soup → Soup
with_in_id id s = record s { in_id = id }

module _ (J : Jansson) where
  open J use {Json, object, string, integer, object_set, object_get, string_value, dumps, loads}

  unfoldable pub create_room : ℕ → ℕ → String → M (Unit {0})
  unfolding random_id modify_soup load_server load_channel channel_send
  create_room serv p options = do
    room_id ← random_id
    modify_soup p (with_in_id room_id)
    server ← load_server serv
    load_channel server.ch
    channel_send J p options (object_set object "roomId" (integer room_id))

  unfoldable pub make_room : ℕ → String → M ℕ
  unfolding load_soup modify_soup create_room
  make_room p options = when p == 0 run pure 0 otherwise (do
    s ← load_soup p
    when s.conn == 0 run pure 0 otherwise (do
      modify_soup p (with_name "worker.createRoom")
      create_room s.conn p options
      pure 1))

  abbrev pub greeting : Json
  greeting = object_set (object_set object "type" (string "ack")) "msg" (string "hello!")

  after_greeting : String → ℕ → Option String → M (Unit {0})
  unfolding kore_calloc soup_init soup_bind_callback set_hdlr_extra make_room
  after_greeting options c none w = ok tt w
  after_greeting options c (some text) w =
      (do
        emit (ws_send c text (len text))
        p ← kore_calloc
        soup_init p
        soup_bind_callback p c
        set_hdlr_extra c p
        make_room p options
        pure tt)
        w

  -- A new client: it is greeted, and a room is asked for it. `options` is `room_options`.
  unfoldable pub websocket_connect : String → ℕ → M (Unit {0})
  unfolding after_greeting
  websocket_connect options c = after_greeting options c (dumps greeting)
