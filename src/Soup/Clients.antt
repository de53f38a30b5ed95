-- ===== src/Soup/Clients.antt =====
-- mediasoup/src/mediasoup.c, `websocket_message` and `websocket_disconnect`.
pub mod Lifetime
use text.Mathlib.Text.{◌==◌ as str_eq}
use mathlib.Core.Option
use kore_io_websocket.Base.{ℕ, String, Option, none, some, ◌==◌, if◌then◌else◌}
use kore_io_websocket.Soup.Jansson.{Jansson}
use kore_io_websocket.Soup.World.{
  Soup, ws_send_back, ok, M, pure, when◌run◌otherwise◌, ◌>>=◌, ◌>>◌, fault, gets, update, emit,
  fire,
}
use kore_io_websocket.Soup.Channel.{modify_soup}
use kore_io_websocket.Soup.Server.{set_hdlr_extra}

free_soup : ℕ → M (Unit {0})
free_soup p w = ok tt (record w { soups = update w.soups p none })

abbrev pub unlinked : Soup → Soup
unlinked s = record s { conn = 0 }

-- The client is freed; a letter of it and the letter's timer stay.
unfoldable pub websocket_disconnect : ℕ → M (Unit {0})
unfolding modify_soup free_soup set_hdlr_extra
websocket_disconnect c = do
  p ← gets (λ w. w.hdlr_extra c)
  when p == 0 run pure tt otherwise (do modify_soup p unlinked; free_soup p; set_hdlr_extra c 0)

-- The two requests that are sent as they stand, up to the NUL in the text.
abbrev pub delete_room_text : String
delete_room_text =
    "{\"id\":344444433,\"method\":\"room.close\",\"internal\":{\"roomId\":35,\"sister\":\"sister_1\"},\"data\":{\"a\":1}}"

abbrev pub room_dump_text : String
room_dump_text =
    "{\"id\":3444444333,\"method\":\"room.createPeer\",\"internal\":{\"roomId\":35,\"sister\":\"sister_1\"},\"data\":{\"a\":1}}"

module _ (J : Jansson) where
  open J use {Json, object, string, integer, object_set, object_get, string_value, dumps, loads}

  create_room_request : Json
  create_room_request =
      let internal =
        object_set (object_set object "roomId" (integer 35)) "sister" (string "sister_1") in
      let content = object_set object "a" (integer 1) in
      let head =
        object_set (object_set object "id" (integer 344444433)) "method"
          (string "worker.createRoom") in
      object_set (object_set head "internal" internal) "data" content

  fire_text : Option String → M (Unit {0})
  unfolding fire
  fire_text none w = ok tt w
  fire_text (some text) w = (do fire (some text); pure tt) w

  -- The `strcmp` chain, over a type that was read.
  by_type : ℕ → ℕ → String → ℕ → String → M (Unit {0})
  unfolding create_room_request fire_text
  by_type c op text len kind =
      when str_eq kind "message"
      run emit (ws_send_back c op text len)
      otherwise when str_eq kind "create_room"
      run fire_text (dumps create_room_request)
      otherwise when str_eq kind "delete_room"
      run fire_text (some delete_room_text)
      otherwise when str_eq kind "room_dump"
      run fire_text (some room_dump_text)
      otherwise pure tt

  -- `json_string_value` gives NULL for a value that is missing or no string, and `strcmp` reads it.
  on_type : ℕ → ℕ → String → ℕ → Option String → M (Unit {0})
  unfolding by_type
  on_type c op text len none w = fault
  on_type c op text len (some kind) w = by_type c op text len kind w

  on_root : ℕ → ℕ → String → ℕ → Option Json → M (Unit {0})
  unfolding on_type
  on_root c op text len none w = ok tt w
  on_root c op text len (some root) w =
      on_type c op text len (Option.bind (object_get root "type") string_value) w

  unfoldable pub websocket_message : ℕ → ℕ → Option String → ℕ → M (Unit {0})
  unfolding on_root
  websocket_message c op none len w = ok tt w
  websocket_message c op (some text) len w = on_root c op text len (loads text) w
