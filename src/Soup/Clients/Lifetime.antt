-- ===== src/Soup/Clients/Lifetime.antt =====
-- The messages of a client of mediasoup/src/mediasoup.c and its end, with what is left behind.
use mathlib.Core.Option
use kore_io_websocket.Base.{ℕ, ◌≡◌, ◌↔◌, true, String, none, some, ◌||◌, arith}
use kore_io_websocket.Soup.Jansson.{Jansson}
use kore_io_websocket.Soup.World.{Soup, Postman, World, ok, fault, update}
use kore_io_websocket.Soup.Requests.{timer_fires, invoke_for_dummy, js_get_uint32, if_exist_key}
use kore_io_websocket.Soup.Requests.Outcomes.{Pending}
use kore_io_websocket.Soup.Clients.{websocket_disconnect, websocket_message}

-- The world after the client `p` of the connection `c` is gone.
abbrev pub gone : World → ℕ → ℕ → World
gone w c p = record w { soups = update w.soups p none; hdlr_extra = update w.hdlr_extra c 0 }

-- A client that leaves while its letter waits is freed, the letter and its timer stay. The timer then
-- reads freed memory, and so does a response with "accepted" or "rejected".
pub disconnect_dangles :
    (J : Jansson) (w : World) (du : Postman) (s : Soup) (h c ch : ℕ) (root : J.Json)
    → Pending w du s h
    → w.hdlr_extra c ≡ du.soupi
    → if_exist_key J root "id" ≡ true
    → js_get_uint32 J root "id" ≡ du.id
    → (if_exist_key J root "accepted" || if_exist_key J root "rejected") ≡ true
    → (websocket_disconnect c w ≡ ok tt (gone w c du.soupi))
      × (timer_fires (record { handle = h; arg = du.soupi }) (gone w c du.soupi) ≡ fault)
      × (invoke_for_dummy J ch root (gone w c du.soupi) ≡ fault)
unfolding websocket_disconnect timer_fires invoke_for_dummy
disconnect_dangles J w du s h c ch root pending extra has_id id answered =
    (ground arith, ground arith, ground arith)

-- A text that is JSON faults exactly if its "type" is missing or no string.
pub message_faults :
    (J : Jansson) (c op len : ℕ) (text : String) (root : J.Json) (w : World)
    → J.loads text ≡ some root
    → (websocket_message J c op (some text) len w ≡ fault)
      ↔ (Option.bind (J.object_get root "type") J.string_value ≡ none)
unfolding websocket_message
message_faults J c op len text root w parsed = (ground arith, ground arith)
