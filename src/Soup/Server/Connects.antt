-- ===== src/Soup/Server/Connects.antt =====
-- A new client of mediasoup/src/mediasoup.c, from `websocket_connect` to its request for a room.
use Prim.Native.String.{len}
use kore_io_websocket.Base.{
  ℕ, suc, ◌≡◌, refl, ◌≢◌, List, ◌∷◌, true, false, String, none, some, arith, length,
}
use kore_io_websocket.Soup.Jansson.{Jansson}
use kore_io_websocket.Soup.Random.{random_u32}
use kore_io_websocket.Soup.World.{
  wait, we_can_work_it_out, Soup, Server, ws_send, fire_to_cpp, World, ok, update,
}
use kore_io_websocket.Soup.Channel.{draw_id, id_lookup}
use kore_io_websocket.Soup.Channel.Frame.{update-update}
use kore_io_websocket.Soup.Channel.Ids.{draw_id_fresh}
use kore_io_websocket.Soup.Requests.{request_json}
use kore_io_websocket.Soup.Requests.Outcomes.{Pending}
use kore_io_websocket.Soup.Requests.Sending.{letter}
use kore_io_websocket.Soup.Server.{websocket_connect, greeting}

-- A server that is up, and the answers of the system to a new client: its memory at `p`, that of the
-- letter at `db`, the room number, the id `r`, the timer `h`.
pub record Answers (w : World) (sv : Server) (p db room r h : ℕ) (ms rs₁ rs₂ hs fs : List ℕ)
    : Type 0 where
  pub up : w.md_server ≢ 0
  pub serves : w.servers w.md_server ≡ some sv
  pub linked : sv.ch ≢ 0
  pub channel : w.channels sv.ch ≡ true
  pub memory : w.mallocs ≡ p ∷ db ∷ ms
  pub client_ok : p ≢ 0
  pub letter_ok : db ≢ 0
  pub room_drawn : random_u32 w.rands ≡ some (room, rs₁)
  pub id_drawn : draw_id (suc (length rs₁)) rs₁ w.letters ≡ some (r, rs₂)
  pub timer : w.handles ≡ h ∷ hs
  pub taken : w.fires ≡ 0 ∷ fs

module _ (J : Jansson) (w : World) (sv : Server) (p db room r h c : ℕ) (ms rs₁ rs₂ hs fs : List ℕ)
    (answers : Answers w sv p db room r h ms rs₁ rs₂ hs fs) (options text : String) where
  abbrev pub newcomer : Soup
  newcomer = record {
    conn = w.md_server;
    state = wait;
    id = r;
    in_id = room;
    error_text = none;
    name = some "worker.createRoom";
    arg = c;
    cb = some we_can_work_it_out;
    result_text = none;
  }

  abbrev pub joined : World
  joined = record w {
    soups = update w.soups p (some newcomer);
    hdlr_extra = update w.hdlr_extra c p;
    letters = letter db r p h ∷ w.letters;
    timers = record { handle = h; arg = p } ∷ w.timers;
    mallocs = ms;
    rands = rs₂;
    handles = hs;
    fires = fs;
    trace =
        fire_to_cpp (
          J.dumps (
            request_json J (some "worker.createRoom") r
              (J.object_set J.object "roomId" (J.integer room)) (J.loads options)))
        ∷ ws_send c text (len text)
        ∷ w.trace;
  }

  -- A new client is greeted, and one request for a room is sent for it. The client then belongs to its
  -- connection, and its letter waits under a fresh id with a timer.
  pub connect_asks :
      J.dumps (greeting J) ≡ some text
      → (websocket_connect J options c w ≡ ok tt joined)
        × Pending joined (letter db r p h) newcomer h
        × (joined.hdlr_extra c ≡ p)
        × (id_lookup r w.letters ≡ false)
  unfolding websocket_connect
  connect_asks greeted = (
    ground (arith, update-update w.soups p),
    record {
      addressed = ground arith;
      not_null = answers.client_ok;
      alive = ground arith;
      bound = refl;
      armed = refl;
      same_id = refl;
    },
    ground arith,
    (draw_id_fresh (suc (length rs₁)) rs₁ w.letters answers.id_drawn).2,
  )
