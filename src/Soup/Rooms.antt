-- ===== src/Soup/Rooms.antt =====
-- mediasoup/src/room.c. The event emitter (globi_ee.c) is a copy of a library: calls of it are
-- recorded, and `on_room_targetId` is what it runs for the event of a room.
use kore_io_websocket.Base.{ℕ, Option, none, some, ◌==◌}
use kore_io_websocket.Soup.Names.{event_name}
use kore_io_websocket.Soup.World.{
  Room, PassData, ee_on, ee_remove_all_listeners, ok, M, pure, crash, when◌run◌otherwise◌, ◌>>=◌,
  ◌>>◌, update, emit, malloc, load_room, load_pass, load_channel,
}

unfoldable pub store_room : ℕ → Option Room → M (Unit {0})
store_room p r w = ok tt (record w { rooms = update w.rooms p r })

unfoldable pub store_pass : ℕ → Option PassData → M (Unit {0})
store_pass p d w = ok tt (record w { passes = update w.passes p d })

-- The memory of `passData` is written without a test.
listen : ℕ → ℕ → ℕ → ℕ → M ℕ
unfolding store_pass load_channel
listen room_id ch r pass = when pass == 0 run crash otherwise (do
  store_pass pass (some (record { ch = ch; r = r; str = event_name room_id }))
  load_channel ch
  emit (ee_on (event_name room_id) pass)
  pure r)

enter : ℕ → ℕ → ℕ → M ℕ
unfolding store_room listen malloc
enter room_id ch r = when r == 0 run pure 0 otherwise (do
  store_room r (some (record { room_id = room_id; ch = ch }))
  pass ← malloc
  listen room_id ch r pass)

unfoldable pub room_new : ℕ → ℕ → M ℕ
unfolding enter malloc
room_new room_id ch = when ch == 0 run pure 0 otherwise (do r ← malloc; enter room_id ch r)

-- `room_close`: the fields are cleared and the room is freed.
unfoldable pub room_close : ℕ → M (Unit {0})
unfolding store_room load_room
room_close r = do load_room r; store_room r none

unfoldable pub on_room_target_id : ℕ → M (Unit {0})
unfolding room_close store_pass load_pass load_channel
on_room_target_id pass = when pass == 0 run pure tt otherwise (do
  d ← load_pass pass
  load_channel d.ch
  emit (ee_remove_all_listeners d.str)
  room_close d.r
  store_pass pass none)
